-- ===== src/Visual/Diagnostics/Distinct.antt =====
-- internal/core/ops.go, dedupe and browserErrors: which messages are reported.
use game_forge.Prelude.{
  subst, ◌∙◌, ◌++◌, Bool, true, false, not, ℕ, ap, text_eq→eq, List, [], ◌∷◌, Text, text_eq,
  text_eq_refl, if◌then◌else◌, is_nil, none, some, Result, ok, err, ◌≡◌, refl, arith, ◌↔◌, ◌⊎◌, inl,
  inr, ◌&&◌, All,
}
use game_forge.Prelude.Int.{ℤ}
use game_forge.Visual.{Page, advance, filter_noise, is_noise}
use game_forge.Visual.Diagnostics.{
  readable, seen, dedupe_from, dedupe, ErrorsOut, stopped, Outcome, stopped_by, reported, with_done,
  gathered, collected, browser_errors, load_asked,
}

-- No message twice.
are_distinct : List Text → Bool
unfolding seen
are_distinct [] = true
are_distinct (m ∷ ms) = not (seen ms m) && are_distinct ms

-- A list with some of the messages left out, in the same order.
data Within : List Text → List Text → Type 0 where
  nothing : Within [] []
  kept : {m : Text} {ss ms : List Text} → Within ss ms → Within (m ∷ ss) (m ∷ ms)
  left_out : {m : Text} {ss ms : List Text} → Within ss ms → Within ss (m ∷ ms)

Within_trans : (xs ys zs : List Text) → Within xs ys → Within ys zs → Within xs zs
Within_trans xs [] [] i nothing = i
Within_trans xs (b ∷ ys) [] i j = elim j [ ]
Within_trans xs ys (c ∷ zs) i (left_out j) = left_out (Within_trans xs ys zs i j)
Within_trans (a ∷ xs) (b ∷ ys) (c ∷ zs) (kept i) (kept j) = kept (Within_trans xs ys zs i j)
Within_trans xs (b ∷ ys) (c ∷ zs) (left_out i) (kept j) = left_out (Within_trans xs ys zs i j)

if_kept :
    (b : Bool) (m : Text) (ss rs ms : List Text)
    → Within ss ms
    → Within rs ms
    → Within (if b then ss else m ∷ rs) (m ∷ ms)
if_kept true m ss rs ms i j = left_out i
if_kept false m ss rs ms i j = kept j

dedupe_from-Within : (met ms : List Text) → Within (dedupe_from met ms) ms
unfolding dedupe_from
dedupe_from-Within met [] = nothing
dedupe_from-Within met (m ∷ ms) =
    if_kept (seen met m) m _ _ ms (dedupe_from-Within met ms) (dedupe_from-Within (m ∷ met) ms)

filter_noise-Within : (other : ℕ → ℕ) (ms : List Text) → Within (filter_noise other ms) ms
unfolding filter_noise
filter_noise-Within other [] = nothing
filter_noise-Within other (m ∷ ms) =
    let i = filter_noise-Within other ms in if_kept (is_noise other m) m _ _ ms i i

seen-eq : (met : List Text) (x m : Text) → text_eq x m ≡ true → seen met x ≡ seen met m
seen-eq met x m e = ap (seen met) (text_eq→eq x m e)

-- Kept is what comes and was not met before.
seen-dedupe_from :
    (met ms : List Text) (m : Text) → seen (dedupe_from met ms) m ≡ (seen ms m && not (seen met m))
unfolding seen dedupe_from
seen-dedupe_from met [] m = refl
seen-dedupe_from met (x ∷ ms) m =
    ground (arith, seen-dedupe_from met ms m, seen-dedupe_from (x ∷ met) ms m, seen-eq met x m)

dedupe_from-distinct : (met ms : List Text) → are_distinct (dedupe_from met ms) ≡ true
unfolding are_distinct dedupe_from
dedupe_from-distinct met [] = refl
dedupe_from-distinct met (x ∷ ms) = ground (
  arith,
  dedupe_from-distinct met ms,
  dedupe_from-distinct (x ∷ met) ms,
  seen-dedupe_from (x ∷ met) ms x,
  text_eq_refl x,
)

dedupe-Within : (ms : List Text) → Within (dedupe ms) ms
unfolding dedupe
dedupe-Within ms = dedupe_from-Within [] ms

dedupe-distinct : (ms : List Text) → are_distinct (dedupe ms) ≡ true
unfolding dedupe
dedupe-distinct ms = dedupe_from-distinct [] ms

seen-filter_noise :
    (other : ℕ → ℕ) (ms : List Text) (m : Text)
    → seen (filter_noise other ms) m ≡ (seen ms m && not (is_noise other m))
unfolding seen filter_noise
seen-filter_noise other [] m = refl
seen-filter_noise other (x ∷ ms) m = ground (arith, seen-filter_noise other ms m, noise_eq)
  where
    noise_eq : text_eq x m ≡ true → is_noise other x ≡ is_noise other m
    noise_eq e = ap (is_noise other) (text_eq→eq x m e)

-- What `browserErrors` reports on the messages `told`.
IsReport : (ℕ → ℕ) → List Text → Outcome → Type 0
unfolding are_distinct seen
IsReport other told r =
    (out : ErrorsOut) × (r.out ≡ some out)
    × Within out.messages told
    × (are_distinct out.messages ≡ true)
    × ((m : Text) → seen out.messages m ≡ (seen told m && not (is_noise other m)))
    × (out.is_ok ≡ is_nil out.messages)
    × ((r.error ≡ none) ↔ All (λ m. is_noise other m ≡ true) told)

is_nil-dedupe : (ms : List Text) → is_nil (dedupe ms) ≡ is_nil ms
unfolding dedupe dedupe_from seen
is_nil-dedupe [] = refl
is_nil-dedupe (m ∷ ms) = refl

filter_noise-none :
    (other : ℕ → ℕ) (ms : List Text)
    → (is_nil (filter_noise other ms) ≡ true) ↔ All (λ m. is_noise other m ≡ true) ms
unfolding filter_noise
filter_noise-none other [] = (λ e. tt, λ e. refl)
filter_noise-none other (m ∷ ms) = ground (arith, filter_noise-none other ms)

reported-none : (ms : List Text) → ((reported ms).error ≡ none) ↔ (is_nil ms ≡ true)
unfolding reported
reported-none ms = ground arith

seen-diagnosis :
    (other : ℕ → ℕ) (told : List Text) (m : Text)
    → seen (dedupe (filter_noise other told)) m ≡ (seen told m && not (is_noise other m))
unfolding dedupe
seen-diagnosis other told m =
    ground (arith, seen-dedupe_from [] (filter_noise other told) m, seen-filter_noise other told m)

-- Stopped before the messages were read.
IsStopped : Outcome → Type 0
IsStopped r = (e : Text) × (r.out ≡ none) × (r.error ≡ some (stopped e))

with_done_both :
    {W : Type 0} (Q : Outcome → Type 0) (r : Result Text Text × W) (next : W → Outcome × W)
    → ((e : Text) → Q (stopped_by e))
    → ((u : Text) (w : W) → r ≡ (ok u, w) → Q (next w).0)
    → Q (with_done r next).0
unfolding with_done
with_done_both Q (err e, w) next q g = q e
with_done_both Q (ok u, w) next q g = g u w refl

-- The messages of an answer; one that failed has none.
messages : Result Text (List Text) → List Text
messages (ok ms) = ms
messages (err e) = []

readable-messages : (r : Result Text (List Text)) → readable r ≡ messages r
unfolding readable messages
readable-messages (ok ms) = refl
readable-messages (err e) = refl

module _ {W : Type 0} (p : Page W) where
  collected-IsReport : (w : W) → IsReport p.other (gathered p w).0 (collected p w).0
  unfolding collected IsReport reported
  collected-IsReport w =
      let told = (gathered p w).0 in
      let plain = filter_noise p.other told in
      (
        record { is_ok = is_nil (dedupe plain); messages = dedupe plain },
        refl,
        Within_trans (dedupe plain) plain told (dedupe-Within plain)
            (filter_noise-Within p.other told),
        dedupe-distinct plain,
        seen-diagnosis p.other told,
        refl,
        ground (
          arith,
          reported-none (dedupe plain),
          is_nil-dedupe plain,
          filter_noise-none p.other told,
        ),
      )

  -- Every step up to the state in which the messages are read succeeded.
  IsReady : Text → ℤ → (W → Result Text Text × W) → W → W → Type 0
  IsReady name ticks open_page w w3 =
      (u1 u2 u3 : Text) × (w1 w2 : W) × (open_page w ≡ (ok u1, w1))
      × (load_asked p name (p.clear_errors w1) ≡ (ok u2, w2))
      × (advance p ticks w2 ≡ (ok u3, w3))

  -- The report is on what the page tells in a state and its console after that.
  IsOnBoth : W → Outcome → Type 0
  unfolding messages IsReport
  IsOnBoth w r =
      (page console : Result Text (List Text)) × (w1 w2 : W) × (p.page_errors w ≡ (page, w1))
      × (p.console_errors w1 ≡ (console, w2))
      × IsReport p.other (messages page ++ messages console) r

  collected-IsOnBoth : (w : W) → IsOnBoth w (collected p w).0
  unfolding IsOnBoth gathered
  collected-IsOnBoth w =
      let (page, w1) = p.page_errors w in
      let (console, w2) = p.console_errors w1 in
      (
        page,
        console,
        w1,
        w2,
        refl,
        refl,
        subst (λ ms. IsReport p.other ms (collected p w).0) (gathered_both w)
            (collected-IsReport w),
      )
    where
      gathered_both :
          (w : W)
          → (gathered p w).0
            ≡ messages (p.page_errors w).0 ++ messages (p.console_errors (p.page_errors w).1).0
      gathered_both w =
          ap (λ ms. ms ++ readable (p.console_errors (p.page_errors w).1).0)
            (readable-messages (p.page_errors w).0)
          ∙ ap (λ ms. messages (p.page_errors w).0 ++ ms)
              (readable-messages (p.console_errors (p.page_errors w).1).0)

  pub IsAnswer : Text → ℤ → (W → Result Text Text × W) → W → Outcome → Type 0
  unfolding IsStopped IsReady IsOnBoth
  IsAnswer name ticks open_page w r =
      IsStopped r ⊎ ((w3 : W) × IsReady name ticks open_page w w3 × IsOnBoth w3 r)

  -- `browserErrors` either stops because the page was not opened, loaded or advanced, and reports no messages, or
  -- reports on what the page and then its console told after that, where one that could not be read
  -- counts as having told nothing. Then the messages are among those, in
  -- their order; none of them comes twice; reported is every one that was told and is no
  -- noise, and nothing else; `ok` says that there is none; and no error comes back exactly
  -- if all that was told is noise.
  pub browser_errors-IsAnswer :
      (name : Text) (ticks : ℤ) (open_page : W → Result Text Text × W) (w : W)
      → IsAnswer name ticks open_page w (browser_errors p name ticks open_page w).0
  unfolding browser_errors IsAnswer
  browser_errors-IsAnswer name ticks open_page w =
      let Q = IsAnswer name ticks open_page w in
      let no : (e : Text) → Q (stopped_by e) = λ e. inl (e, refl, refl) in
      with_done_both Q (open_page w) _ no (λ u1 w1 e1.
        with_done_both Q (load_asked p name (p.clear_errors w1)) _ no (λ u2 w2 e2.
          with_done_both Q (advance p ticks w2) _ no
            (λ u3 w3 e3. inr (w3, (u1, u2, u3, w1, w2, e1, e2, e3), collected-IsOnBoth w3))))
