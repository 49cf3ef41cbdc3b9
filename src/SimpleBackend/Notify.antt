-- ===== src/SimpleBackend/Notify.antt =====
-- notifyListeners: who is called, in which order, and who is not.
use world_wide_anthropomorph.Base.{
  subst, Result-cases, ◌≡◌, sym, refl, true, false, Option, List, [], ◌∷◌, ◌++◌, Result, ok, err,
  All, reverse, All-append, Bool-cases, inl, inr,
}
use mathlib.Core.List.{reverse-append}
use world_wide_anthropomorph.Text.{Text, text_lt}
use world_wide_anthropomorph.OrderedMap.{OrderedMap, not_above}
use world_wide_anthropomorph.TreeNode.{TreeNode}
use world_wide_anthropomorph.LabelRule.{partial_label_rule_match}
use world_wide_anthropomorph.Backend.{Call, Exec, ◌>>◌}
use world_wide_anthropomorph.SimpleBackend.{
  SimpleBackend, ListenerInfo, fire, hears, notify_rule, notify_down, notify_listeners,
}

-- If the last rule that is not above the label does not match it, no listener is called, whatever
-- other rules match the label.
pub notify_listeners-blocked :
    (label : Text) (node : Option TreeNode) (b : SimpleBackend)
    (rules : OrderedMap (List ListenerInfo)) (rule : Text) (ls : List ListenerInfo)
    → not_above label b.node_listeners ≡ rules ++ (rule, ls) ∷ []
    → partial_label_rule_match label rule ≡ false
    → notify_listeners label node b ≡ (ok tt, b)
unfolding notify_listeners notify_down
notify_listeners-blocked label _ b rules rule ls e h =
    rw (e, reverse-append rules ((rule, ls) ∷ []), notify_listeners, h) refl

module _ (label : Text) (node : Option TreeNode) (P : Call → Type 0) where
  -- All that the callbacks of the listeners tell, where they hear of the label, has the property.
  abbrev Tells : Text → List ListenerInfo → Type 0
  Tells rule ls =
      All
        (λ l.
          hears label rule l ≡ true
          → (told : List Call) → l.callback label node ≡ ok told
          → All P told)
        ls

  abbrev pub TellsAll : OrderedMap (List ListenerInfo) → Type 0
  TellsAll [] = Unit
  TellsAll ((rule, ls) ∷ rules) =
      (partial_label_rule_match label rule ≡ true → Tells rule ls) × TellsAll rules

  fire-All :
      (l : ListenerInfo) (calls : List Call)
      → ((told : List Call) → l.callback label node ≡ ok told → All P told)
      → All P calls
      → All P (fire l.callback label node calls).1
  unfolding fire
  fire-All l calls h a = elim (Result-cases (l.callback label node)) [
    | inl (told, e) ↦ rw (e, fire) (All-append P calls told a (h told e))
    | inr (x, e) ↦ rw (e, fire) a
  ]

  >>-All :
      (m k : Exec (List Call) (Unit {0})) (calls : List Call)
      → All P (m calls).1
      → ((c : List Call) → All P c → All P (k c).1)
      → All P ((m >> k) calls).1
  >>-All m k calls h g = go (m calls).0 (m calls).1 h
    where
      go :
          (r : Result (Unit {0})) (c : List Call)
          → All P c
          → All P (
              let p : Result (Unit {0}) × List Call = elim r [ ok x ↦ k c | err e ↦ (err e, c) ] in
              p.1)
      go (ok x) c a = g c a
      go (err e) c a = a

  notify_rule-All :
      (rule : Text) (ls : List ListenerInfo) (calls : List Call)
      → Tells rule ls
      → All P calls
      → All P (notify_rule label node rule ls calls).1
  unfolding notify_rule
  notify_rule-All rule [] calls h a = a
  notify_rule-All rule (l ∷ ls) calls (h, hs) a = elim (Bool-cases (hears label rule l)) [
    | inl e ↦
        rw (e, notify_rule)
          (>>-All (fire l.callback label node) (notify_rule label node rule ls) calls
            (fire-All l calls (h e) a) (λ c. notify_rule-All rule ls c hs))
    | inr e ↦ rw (e, notify_rule) (notify_rule-All rule ls calls hs a)
  ]

  notify_down-All :
      (rules : OrderedMap (List ListenerInfo)) (calls : List Call)
      → TellsAll rules
      → All P calls
      → All P (notify_down label node rules calls).1
  unfolding notify_down
  notify_down-All [] calls h a = a
  notify_down-All ((rule, ls) ∷ rules) calls (h, hs) a =
      elim (Bool-cases (partial_label_rule_match label rule)) [
        | inl e ↦
            rw (e, notify_down)
              (>>-All (notify_rule label node rule ls) (notify_down label node rules) calls
                (notify_rule-All rule ls calls (h e) a) (λ c. notify_down-All rules c hs))
        | inr e ↦ rw (e, notify_down) a
      ]

  TellsAll-append :
      (xs ys : OrderedMap (List ListenerInfo)) → TellsAll xs → TellsAll ys → TellsAll (xs ++ ys)
  TellsAll-append [] ys h k = k
  TellsAll-append (x ∷ xs) ys (h, hs) k = (h, TellsAll-append xs ys hs k)

  TellsAll-reverse : (xs : OrderedMap (List ListenerInfo)) → TellsAll xs → TellsAll (reverse xs)
  TellsAll-reverse [] h = tt
  TellsAll-reverse (x ∷ xs) (h, hs) =
      subst TellsAll (sym (reverse-append (x ∷ []) xs))
        (TellsAll-append (reverse xs) (x ∷ []) (TellsAll-reverse xs hs) (h, tt))

  TellsAll-not_above :
      (k : Text) (m : OrderedMap (List ListenerInfo)) → TellsAll m → TellsAll (not_above k m)
  unfolding not_above
  TellsAll-not_above k [] h = tt
  TellsAll-not_above k ((rule, ls) ∷ m) (h, hs) = elim (Bool-cases (text_lt k rule)) [
    | inl e ↦ rw (e, not_above) tt
    | inr e ↦ rw (e, not_above) (h, TellsAll-not_above k m hs)
  ]

  -- notifyListeners tells only what has the property, where it holds of what the callbacks tell
  -- that hear of the label: those under a rule that the label begins with, which is the label
  -- itself, or which they follow for its children and which overlaps with the label.
  pub notify_listeners-All :
      (b : SimpleBackend)
      → TellsAll b.node_listeners
      → All P b.calls
      → All P (notify_listeners label node b).1.calls
  unfolding notify_listeners
  notify_listeners-All b h a =
      notify_down-All (reverse (not_above label b.node_listeners)) b.calls
        (TellsAll-reverse _ (TellsAll-not_above label b.node_listeners h)) a
