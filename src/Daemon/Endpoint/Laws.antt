-- ===== src/Daemon/Endpoint/Laws.antt =====
-- Which port `bindEndpoint` binds.
use native.Mathlib.Nat.{zero-add}
use game_forge.Prelude.{
  ℕ, zero, suc, ◌+◌, ◌≤◌, ◌<◌, ◌≡◌, ◌≢◌, refl, ◌∙◌, ap, sym, Bool, true, false, Option, none, some,
  Result, ok, err, arith, Bool-cases, inl, inr, subst, if◌then◌else◌,
}
use game_forge.Storage.{holds, Io, IoError, store}
use game_forge.Storage.Laws.{store_ok}
use game_forge.Daemon.Endpoint.{
  EndpointDisk, BindError, no_free_port, occupied, load_endpoint_port, persist_endpoint_port,
  persisted, probe, scan, bind_known, bind_endpoint, port_min, port_max, port_scan,
}

probe_range : (start i : ℕ) → (port_min ≤ probe start i) × (probe start i ≤ port_max)
unfolding probe
probe_range start i = omega arith

-- Two probes of one scan hit different ports.
probe_injective : (start i j : ℕ) → i < j → j < port_scan → probe start i ≢ probe start j
unfolding probe
probe_injective start i j h k = omega arith

persisted_ok :
    (port : ℕ) (q : EndpointDisk × Option IoError) (p : ℕ)
    → (persisted port q).1 ≡ ok p
    → (p ≡ port) × (q.1 ≡ none)
unfolding persisted
persisted_ok port (disk, none) p h = (ground arith, refl)
persisted_ok port (disk, some e) p h = ground arith

disk_of_persisted : (port : ℕ) (q : EndpointDisk × Option IoError) → (persisted port q).0 ≡ q.0
unfolding persisted
disk_of_persisted port (disk, none) = refl
disk_of_persisted port (disk, some e) = refl

persisted-ne-no_free :
    (port : ℕ) (q : EndpointDisk × Option IoError) → (persisted port q).1 ≢ err no_free_port
unfolding persisted
persisted-ne-no_free port (disk, none) = λ e. ground arith
persisted-ne-no_free port (disk, some x) = λ e. ground arith

-- What holds at `i` and at the `k` places behind it holds at the first `k + 1` places from `i`.
shift :
    (P : ℕ → Type 0) (i k : ℕ)
    → P i
    → ((j : ℕ) → j < k → P (i + 1 + j))
    → (j : ℕ) → j < k + 1
    → P (i + j)
shift P i k first others zero l = let e : i ≡ i + 0 = omega arith in subst P e first
shift P i k first others (suc j) l =
    let e : i + 1 + j ≡ i + suc j = omega arith in subst P e (others j (omega arith))

module _ (free : ℕ → Bool) (io : Io ℕ) (start : ℕ) where
  -- The scan binds the first free port of its probes, and records it.
  scan_ok :
      (i rounds : ℕ) (disk : EndpointDisk) (p : ℕ)
      → io.write_ok ≡ true
      → (scan free io start i rounds disk).1 ≡ ok p
      → (k : ℕ) × (k < rounds)
        × (p ≡ probe start (i + k))
        × (free p ≡ true)
        × ((j : ℕ) → j < k → free (probe start (i + j)) ≡ false)
        × ((scan free io start i rounds disk).0 ≡ holds p)
  unfolding scan persist_endpoint_port
  scan_ok i zero disk p w h = ground arith
  scan_ok i (suc rounds) disk p w h = elim (Bool-cases (free (probe start i))) [
    | inl b ↦
        let q = store io (probe start i) disk in
        let (same, stored) = persisted_ok (probe start i) q p (rw b at h) in
        (
          0,
          omega arith,
          ground arith,
          ground arith,
          λ j l. absurd (omega arith),
          rw b (
              disk_of_persisted (probe start i) q
              ∙ store_ok io (probe start i) disk w stored
              ∙ ap holds (sym same)),
        )
    | inr b ↦
        let (k, l, e, f, before, d) = scan_ok (i + 1) rounds disk p w (rw b at h) in
        let regroup : i + 1 + k ≡ i + (k + 1) = omega arith in
        (
          k + 1,
          omega arith,
          e ∙ ap (probe start) regroup,
          f,
          shift (λ n. free (probe start n) ≡ false) i k b before,
          rw b d,
        )
  ]

  scan_none :
      (i rounds : ℕ) (disk : EndpointDisk)
      → (scan free io start i rounds disk).1 ≡ err no_free_port
      → (k : ℕ) → k < rounds
      → free (probe start (i + k)) ≡ false
  unfolding scan
  scan_none i zero disk h k l = absurd (omega arith)
  scan_none i (suc rounds) disk h k l = elim (Bool-cases (free (probe start i))) [
    | inl b ↦ absurd (
        persisted-ne-no_free (probe start i) (persist_endpoint_port io (probe start i) disk)
          (rw b at h))
    | inr b ↦
        shift (λ n. free (probe start n) ≡ false) i rounds b
          (scan_none (i + 1) rounds disk (rw b at h)) k (omega arith)
  ]

abbrev Bound : Type 0
Bound = EndpointDisk × Result BindError ℕ

bind_unchosen :
    (free : ℕ → Bool) (io : Io ℕ) (start : ℕ) (disk : EndpointDisk)
    → load_endpoint_port disk ≡ ok 0
    → bind_endpoint free io start disk ≡ scan free io start 0 port_scan disk
unfolding bind_endpoint bind_known
bind_unchosen free io start disk e = rw (e, bind_endpoint) refl

-- On a machine that has not chosen a port yet, `bindEndpoint` binds the first free port of its at most
-- 512 probes, which lies between 50000 and 59999, and the file then holds that port; the write is
-- supposed not to be torn.
bind_endpoint_first :
    (free : ℕ → Bool) (io : Io ℕ) (start : ℕ) (disk : EndpointDisk) (p : ℕ)
    → load_endpoint_port disk ≡ ok 0
    → io.write_ok ≡ true
    → (bind_endpoint free io start disk).1 ≡ ok p
    → (port_min ≤ p)
      × (p ≤ port_max)
      × (free p ≡ true)
      × ((bind_endpoint free io start disk).0 ≡ holds p)
      × ((k : ℕ) × (k < port_scan)
          × (p ≡ probe start k)
          × ((j : ℕ) → j < k → free (probe start j) ≡ false))
bind_endpoint_first free io start disk p none_yet w h =
    let scanned = bind_unchosen free io start disk none_yet in
    let (k, l, e, f, before, d) =
      scan_ok free io start 0 port_scan disk p w (ap (λ (q : Bound). q.1) (sym scanned) ∙ h) in
    let here = e ∙ ap (probe start) (zero-add k) in
    let (low, high) = probe_range start k in
    (
      subst (λ n. port_min ≤ n) (sym here) low,
      subst (λ n. n ≤ port_max) (sym here) high,
      f,
      ap (λ (q : Bound). q.0) scanned ∙ d,
      (k, l, here, λ j m. subst (λ n. free (probe start n) ≡ false) (zero-add j) (before j m)),
    )

bind_chosen :
    (free : ℕ → Bool) (io : Io ℕ) (start port : ℕ) (disk : EndpointDisk)
    → load_endpoint_port disk ≡ ok (suc port)
    → bind_endpoint free io start disk
      ≡ (disk, (if free (suc port) then ok (suc port) else err (occupied (suc port))))
unfolding bind_endpoint bind_known
bind_chosen free io start port disk e = rw (e, bind_endpoint) (ground arith)

chosen_stays :
    (free : ℕ → Bool) (io : Io ℕ) (start p : ℕ) (disk : EndpointDisk)
    → 0 < p
    → load_endpoint_port disk ≡ ok p
    → bind_endpoint free io start disk ≡ (disk, (if free p then ok p else err (occupied p)))
chosen_stays free io start zero disk h e = elim h [ ]
chosen_stays free io start (suc p) disk h e = bind_chosen free io start p disk e

-- Once a first start has bound a port, with an untorn write, every later start, whatever it draws and
-- whatever else is free, binds that same port if it is free and otherwise fails with "occupied", and the
-- file stays as it is.
bind_endpoint_stable :
    (free free' : ℕ → Bool) (io io' : Io ℕ) (start start' : ℕ) (disk : EndpointDisk) (p : ℕ)
    → load_endpoint_port disk ≡ ok 0
    → io.write_ok ≡ true
    → (bind_endpoint free io start disk).1 ≡ ok p
    → bind_endpoint free' io' start' (bind_endpoint free io start disk).0
      ≡ (holds p, (if free' p then ok p else err (occupied p)))
unfolding load_endpoint_port
bind_endpoint_stable free free' io io' start start' disk p none_yet w h =
    let (low, high, f, d, found) = bind_endpoint_first free io start disk p none_yet w h in
    ap (bind_endpoint free' io' start') d
    ∙ chosen_stays free' io' start' p (holds p) (omega arith) refl

-- A start that has not chosen a port yet gives up with "no free port" only if none of its 512 probes,
-- which are 512 different ports, is free; the rest of the range is not tried.
bind_endpoint_gives_up :
    (free : ℕ → Bool) (io : Io ℕ) (start : ℕ) (disk : EndpointDisk)
    → load_endpoint_port disk ≡ ok 0
    → (bind_endpoint free io start disk).1 ≡ err no_free_port
    → (k : ℕ) → k < port_scan
    → (free (probe start k) ≡ false) × ((j : ℕ) → j < k → probe start j ≢ probe start k)
bind_endpoint_gives_up free io start disk none_yet h k l = (
  subst (λ n. free (probe start n) ≡ false) (zero-add k)
      (scan_none free io start 0 port_scan disk
        (ap (λ (q : Bound). q.1) (sym (bind_unchosen free io start disk none_yet)) ∙ h) k l),
  λ j m. probe_injective start j k m l,
)
