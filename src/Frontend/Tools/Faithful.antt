-- ===== src/Frontend/Tools/Faithful.antt =====
-- internal/mcpfrontend/frontend.go, New and add: a tool name stands for one operation.
use game_forge.Prelude.{
  true, false, ◌==ₛ◌, String, List, [], ◌∷◌, ◌++◌, some, ok, ◌≡◌, refl, sym, ap, ◌∙◌, subst, arith,
  All, Text, text_eq, text_eq_refl, text_eq→eq, has, Bool-cases, Result-cases, inl, inr,
  ok_injective, eq_iff, any_by,
}
use mathlib.Core.List.{append-nil, append_assoc}
use game_forge.Daemon.Run.{is_version}
use game_forge.Daemon.Run.InProcess.{Meta}
use game_forge.Daemon.Discovery.{protocol_name}
use game_forge.Frontend.Json.{Value}
use game_forge.Frontend.Tools.{
  Options, Tool, Frontend, tool_name, find_op, op_name, tool_of, add, add_all, Catalogued,
  empty_frontend, new,
}

-- The entry that add makes.
added : Frontend → Meta Value → Frontend
added f m = record f {
  tools = f.tools ++ tool_of f.options m ∷ [];
  ops = (tool_name m.op, m.op) ∷ f.ops;
  metas = (m.op, m) ∷ f.metas;
}

add_ok :
    (f g : Frontend) (m : Meta Value)
    → add f m ≡ ok g
    → (has (find_op (tool_name m.op) f.ops) ≡ false) × (g ≡ added f m)
unfolding add added
add_ok f g m h = elim (Bool-cases (has (find_op (tool_name m.op) f.ops))) [
  | inl e ↦ ground (arith, rw (e, add) at h)
  | inr e ↦ (e, sym (ok_injective (rw (e, add) at h)))
]

-- An entry is not hidden by those that come later.
find_op-added :
    (f : Frontend) (m : Meta Value) (n : Text) (op : String)
    → has (find_op (tool_name m.op) f.ops) ≡ false
    → find_op n f.ops ≡ some op
    → find_op n (added f m).ops ≡ some op
unfolding added find_op
find_op-added f m n op fresh h = elim (Bool-cases (text_eq (tool_name m.op) n)) [
  | inr e ↦ rw e h
  | inl e ↦
      let same = text_eq→eq (tool_name m.op) n e in
      ground (arith, subst (λ k. has (find_op k f.ops) ≡ false) same fresh)
]

find_op-add_all :
    (f g : Frontend) (ms : List (Meta Value)) (n : Text) (op : String)
    → add_all f ms ≡ ok g
    → find_op n f.ops ≡ some op
    → find_op n g.ops ≡ some op
unfolding add_all
find_op-add_all f g [] n op h found = subst (λ x. find_op n x.ops ≡ some op) (ok_injective h) found
find_op-add_all f g (m ∷ ms) n op h found = elim (Result-cases (add f m)) [
  | inl (e, q) ↦ ground (arith, rw (q, add_all) at h)
  | inr (g', q) ↦
      let (fresh, same) = add_ok f g' m q in
      find_op-add_all g' g ms n op (rw (q, add_all) at h)
        (subst (λ x. find_op n x.ops ≡ some op) (sym same) (find_op-added f m n op fresh found))
]

-- The names of the tools, in order.
pub tool_names : List Tool → List Text
tool_names [] = []
tool_names (t ∷ ts) = t.name ∷ tool_names ts

pub named_for : List (Meta Value) → List Text
named_for [] = []
named_for (m ∷ ms) = tool_name m.op ∷ named_for ms

-- Each name stands once.
abbrev pub DistinctTexts : List Text → Type 0
DistinctTexts [] = Unit
DistinctTexts (n ∷ ns) = (any_by (text_eq n) ns ≡ false) × DistinctTexts ns

abbrev pub Reached : Frontend → List (Meta Value) → Type 0
Reached f ms = All (λ (m : Meta Value). op_name f (tool_name m.op) ≡ some m.op) ms

found_first : (f : Frontend) (m : Meta Value) → find_op (tool_name m.op) (added f m).ops ≡ some m.op
unfolding added find_op
found_first f m = rw (text_eq_refl (tool_name m.op)) refl

-- A name that has an entry is not given to a later tool.
add_all-fresh :
    (f g : Frontend) (ms : List (Meta Value)) (n : Text) (op : String)
    → add_all f ms ≡ ok g
    → find_op n f.ops ≡ some op
    → any_by (text_eq n) (named_for ms) ≡ false
unfolding add_all named_for
add_all-fresh f g [] n op h found = refl
add_all-fresh f g (m ∷ ms) n op h found = elim (Result-cases (add f m)) [
  | inl (e, q) ↦ ground (arith, rw (q, add_all) at h)
  | inr (g', q) ↦
      let (fresh, same) = add_ok f g' m q in
      let later =
        add_all-fresh g' g ms n op (rw (q, add_all) at h) (
          subst (λ x. find_op n x.ops ≡ some op) (sym same) (find_op-added f m n op fresh found)) in
      elim (Bool-cases (text_eq n (tool_name m.op))) [
        | inr e ↦ rw e later
        | inl e ↦
            ground (
              arith,
              subst (λ k. find_op k f.ops ≡ some op) (text_eq→eq n (tool_name m.op) e) found,
            )
      ]
]

add_all-DistinctTexts :
    (f g : Frontend) (ms : List (Meta Value)) → add_all f ms ≡ ok g → DistinctTexts (named_for ms)
unfolding add_all named_for
add_all-DistinctTexts f g [] h = tt
add_all-DistinctTexts f g (m ∷ ms) h = elim (Result-cases (add f m)) [
  | inl (e, q) ↦ ground (arith, rw (q, add_all) at h)
  | inr (g', q) ↦
      let (fresh, same) = add_ok f g' m q in
      let rest = rw (q, add_all) at h in
      (
        add_all-fresh g' g ms (tool_name m.op) m.op rest
            (subst (λ x. find_op (tool_name m.op) x.ops ≡ some m.op) (sym same) (found_first f m)),
        add_all-DistinctTexts g' g ms rest,
      )
]

tool_names-append :
    (ts : List Tool) (t : Tool) → tool_names (ts ++ t ∷ []) ≡ tool_names ts ++ t.name ∷ []
unfolding tool_names
tool_names-append [] t = refl
tool_names-append (u ∷ ts) t = ap (λ ns. u.name ∷ ns) (tool_names-append ts t)

one_more :
    (f : Frontend) (m : Meta Value) (ms : List (Meta Value))
    → tool_names (added f m).tools ++ named_for ms
      ≡ tool_names f.tools ++ tool_name m.op ∷ named_for ms
unfolding added tool_of
one_more f m ms =
    ap (λ ns. ns ++ named_for ms) (tool_names-append f.tools (tool_of f.options m))
    ∙ append_assoc (tool_names f.tools) (tool_name m.op ∷ []) (named_for ms)

add_all-tool_names :
    (f g : Frontend) (ms : List (Meta Value))
    → add_all f ms ≡ ok g
    → tool_names g.tools ≡ tool_names f.tools ++ named_for ms
unfolding add_all named_for
add_all-tool_names f g [] h =
    ap (λ x. tool_names x.tools) (sym (ok_injective h)) ∙ sym (append-nil _)
add_all-tool_names f g (m ∷ ms) h = elim (Result-cases (add f m)) [
  | inl (e, q) ↦ ground (arith, rw (q, add_all) at h)
  | inr (g', q) ↦
      add_all-tool_names g' g ms (rw (q, add_all) at h)
      ∙ ap (λ x. tool_names x.tools ++ named_for ms) ((add_ok f g' m q).1)
      ∙ one_more f m ms
]

add_all-Reached : (f g : Frontend) (ms : List (Meta Value)) → add_all f ms ≡ ok g → Reached g ms
unfolding add_all op_name
add_all-Reached f g [] h = tt
add_all-Reached f g (m ∷ ms) h = elim (Result-cases (add f m)) [
  | inl (e, q) ↦ ground (arith, rw (q, add_all) at h)
  | inr (g', q) ↦
      let (fresh, same) = add_ok f g' m q in
      let rest = rw (q, add_all) at h in
      (
        find_op-add_all g' g ms (tool_name m.op) m.op rest
            (subst (λ x. find_op (tool_name m.op) x.ops ≡ some m.op) (sym same) (found_first f m)),
        add_all-Reached g' g ms rest,
      )
]

-- A frontend that New makes speaks the protocol and its version; its tools are those of the catalog, in
-- order, under different names; and each tool name leads back to the operation it was made for.
pub new-Reached :
    (o : Options) (c : Catalogued) (f : Frontend)
    → new o (some c) ≡ ok f
    → (c.protocol ≡ protocol_name)
      × (is_version c.version ≡ true)
      × (tool_names f.tools ≡ named_for c.ops)
      × DistinctTexts (named_for c.ops)
      × Reached f c.ops
unfolding new empty_frontend tool_names
new-Reached o c f h = elim (Bool-cases (c.protocol ==ₛ protocol_name)) [
  | inr e ↦ ground (arith, rw (e, new) at h)
  | inl e ↦ elim (Bool-cases (is_version c.version)) [
    | inr v ↦ ground (arith, rw (e, v, new) at h)
    | inl v ↦
        let made : add_all (empty_frontend o) c.ops ≡ ok f = rw (e, v, new) at h in
        (
          (eq_iff c.protocol protocol_name).0 e,
          v,
          add_all-tool_names (empty_frontend o) f c.ops made,
          add_all-DistinctTexts (empty_frontend o) f c.ops made,
          add_all-Reached (empty_frontend o) f c.ops made,
        )
  ]
]
