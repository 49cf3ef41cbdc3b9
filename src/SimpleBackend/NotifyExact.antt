-- ===== src/SimpleBackend/NotifyExact.antt =====
-- A listener of the very label that changes is always told, before the listeners of other rules.
use mathlib.Core.List.{reverse-append, append_assoc, append-nil}
use world_wide_anthropomorph.Base.{
  ◌≡◌, ◌∙◌, ap, sym, true, Option, some, List, [], ◌∷◌, ◌++◌, Result, ok, err, All, reverse,
  Bool-cases, inl, inr, Result-cases,
}
use world_wide_anthropomorph.Text.{Text, text_eq_refl}
use world_wide_anthropomorph.Text.Search.{IsFree}
use world_wide_anthropomorph.OrderedMap.{OrderedMap, lookup}
use world_wide_anthropomorph.OrderedMap.Sorted.{IsSorted, not_above-lookup}
use world_wide_anthropomorph.TreeNode.{TreeNode}
use world_wide_anthropomorph.LabelRule.{partial_label_rule_match}
use world_wide_anthropomorph.LabelRule.Overlap.{strip_query_free}
use world_wide_anthropomorph.Backend.{Call, Exec, ◌>>◌}
use world_wide_anthropomorph.SimpleBackend.{
  SimpleBackend, ListenerInfo, fire, hears, notify_rule, notify_down, notify_listeners,
}

module _ (label : Text) (node : Option TreeNode) where
  -- The calls after the method are those before it and more.
  abbrev Grows : Exec (List Call) (Unit {0}) → Type 0
  Grows m = (calls : List Call) → (more : List Call) × ((m calls).1 ≡ calls ++ more)

  fire-Grows : (l : ListenerInfo) → Grows (fire l.callback label node)
  unfolding fire
  fire-Grows l calls = elim (Result-cases (l.callback label node)) [
    | inl (told, e) ↦ (told, rw (e, fire))
    | inr (x, e) ↦ ([], rw (e, fire) (sym (append-nil calls)))
  ]

  >>-Grows : (m k : Exec (List Call) (Unit {0})) → Grows m → Grows k → Grows (m >> k)
  >>-Grows m k hm hk calls = let (more, e) = hm calls in go (m calls).0 (m calls).1 more e
    where
      go :
          (r : Result (Unit {0})) (c more : List Call)
          → c ≡ calls ++ more
          → (all : List Call) × ((let p : Result (Unit {0}) × List Call = elim r [
            | ok x ↦ k c
            | err e ↦ (err e, c)
          ] in
                p.1)
              ≡ calls ++ all)
      go (ok x) c more e =
          let (rest, e') = hk c in
          (more ++ rest, e' ∙ ap (λ z. z ++ rest) e ∙ append_assoc calls more rest)
      go (err x) c more e = (more, e)

  notify_rule-Grows :
      (rule : Text) (ls : List ListenerInfo) → Grows (notify_rule label node rule ls)
  unfolding notify_rule
  notify_rule-Grows rule [] calls = ([], sym (append-nil calls))
  notify_rule-Grows rule (l ∷ ls) calls = elim (Bool-cases (hears label rule l)) [
    | inl e ↦
        rw (e, notify_rule)
          (>>-Grows (fire l.callback label node) (notify_rule label node rule ls) (fire-Grows l)
            (notify_rule-Grows rule ls) calls)
    | inr e ↦ rw (e, notify_rule) (notify_rule-Grows rule ls calls)
  ]

  notify_down-Grows :
      (rules : OrderedMap (List ListenerInfo)) → Grows (notify_down label node rules)
  unfolding notify_down
  notify_down-Grows [] calls = ([], sym (append-nil calls))
  notify_down-Grows ((rule, ls) ∷ rules) calls =
      elim (Bool-cases (partial_label_rule_match label rule)) [
        | inl e ↦
            rw (e, notify_down)
              (>>-Grows (notify_rule label node rule ls) (notify_down label node rules)
                (notify_rule-Grows rule ls) (notify_down-Grows rules) calls)
        | inr e ↦ rw (e, notify_down) ([], sym (append-nil calls))
      ]

  module _ (tells : ListenerInfo → List Call) where
    -- What the listeners tell, in their order.
    abbrev pub all_told : List ListenerInfo → List Call
    all_told [] = []
    all_told (l ∷ ls) = tells l ++ all_told ls

    notify_rule-told :
        (ls : List ListenerInfo) (calls : List Call)
        → All (λ l. l.callback label node ≡ ok (tells l)) ls
        → notify_rule label node label ls calls ≡ (ok tt, calls ++ all_told ls)
    unfolding notify_rule
    notify_rule-told [] calls h = ap (λ c. (ok tt, c)) (sym (append-nil calls))
    notify_rule-told (l ∷ ls) calls (h, hs) =
        rw (text_eq_refl label, h, fire, notify_rule)
          (notify_rule-told ls (calls ++ tells l) hs
            ∙ ap (λ c. (ok tt, c)) (append_assoc calls (tells l) (all_told ls)))

>>-ok :
    (m k : Exec (List Call) (Unit {0})) (calls c : List Call)
    → m calls ≡ (ok tt, c)
    → (m >> k) calls ≡ k c
>>-ok m k calls c e = ap resume e
  where
    resume : Result (Unit {0}) × List Call → Result (Unit {0}) × List Call
    resume (r, c') = elim r [ ok x ↦ k c' | err x ↦ (err x, c') ]

matches_self : (label : Text) → IsFree b'?' label → partial_label_rule_match label label ≡ true
unfolding partial_label_rule_match
matches_self label h = rw (strip_query_free label h, text_eq_refl label, partial_label_rule_match)

-- Where the listener map is in order, the label that changes has no query and has listeners of its
-- own, and none of their callbacks throws, notifyListeners calls all of them, in the order of
-- their registration and before any other listener.
pub notify_listeners-exact :
    (label : Text) (node : Option TreeNode) (b : SimpleBackend) (ls : List ListenerInfo)
    (tells : ListenerInfo → List Call)
    → IsFree b'?' label
    → IsSorted b.node_listeners
    → lookup label b.node_listeners ≡ some ls
    → All (λ l. l.callback label node ≡ ok (tells l)) ls
    → (more : List Call) × ((notify_listeners label node b).1.calls
        ≡ b.calls ++ (all_told label node tells ls ++ more))
unfolding notify_listeners notify_down
notify_listeners-exact label node b ls tells free sorted found quiet =
    let (front, e) = not_above-lookup label ls b.node_listeners sorted found in
    let (more, grown) =
      notify_down-Grows label node (reverse front) (b.calls ++ all_told label node tells ls) in
    (
      more,
      rw (e, reverse-append front ((label, ls) ∷ []), notify_listeners, matches_self label free)
          (ap (λ (p : Result (Unit {0}) × List Call). p.1)
              (>>-ok (notify_rule label node label ls) (notify_down label node (reverse front))
                b.calls _ (notify_rule-told label node tells ls b.calls quiet))
            ∙ grown
            ∙ append_assoc b.calls (all_told label node tells ls) more),
    )
