-- ===== src/Backend.antt =====
-- common/backend_cpp/interface/backend.h: the interface that every backend has, over an unknown
-- state, and the callbacks of its listeners.
use world_wide_anthropomorph.Base.{Bool, Option, List, Result, Error, ok, err, ◌≡◌, refl, ap}
use world_wide_anthropomorph.Text.{Text}
use world_wide_anthropomorph.TreeNode.{TreeNode, Transaction}

-- What a listener was told: its name, the label, and the node or its removal.
pub record Call : Type 0 where
  pub listener : Text
  pub label : Text
  pub node : Option TreeNode

-- NodeListenerCallback. A callback is what the client's function is told in the end, after all
-- wrappers, or the exception of a wrapper. That it may call the backend again is not modelled.
abbrev pub NodeListenerCallback : Type 0
NodeListenerCallback = Text → Option TreeNode → Result (List Call)

-- A method that changes the state. What was written before a throw stays written.
abbrev pub Exec : Type 0 → Type 0 → Type 0
Exec S A = S → Result A × S

infixl 5 ◌>>=◌ ◌>>◌
abbrev pub ◌>>=◌ : {S A B : Type 0} → Exec S A → (A → Exec S B) → Exec S B
◌>>=◌ m f s = let (r, s') = m s in elim r [ ok a ↦ f a s' | err e ↦ (err e, s') ]

abbrev pub ◌>>◌ : {S A B : Type 0} → Exec S A → Exec S B → Exec S B
m >> k = m >>= λ _. k

abbrev pub pure : {S A : Type 0} → A → Exec S A
pure a s = (ok a, s)

-- A step after one that has not thrown, and after one that has.
pub bind_ok :
    {S A B : Type 0} (m : Exec S A) (f : A → Exec S B) {s s' : S} {a : A}
    → m s ≡ (ok a, s')
    → (m >>= f) s ≡ f a s'
bind_ok m f e = ap (λ p. elim p.0 [ ok a ↦ f a p.1 | err thrown ↦ (err thrown, p.1) ]) e

pub bind_err :
    {S A B : Type 0} (m : Exec S A) (f : A → Exec S B) {s s' : S} {thrown : Error}
    → m s ≡ (err thrown, s')
    → (m >>= f) s ≡ (err thrown, s')
bind_err m f e = ap (λ p. elim p.0 [ ok a ↦ f a p.1 | err thrown ↦ (err thrown, p.1) ]) e

after_ok :
    {S A B : Type 0} (f : A → Exec S B) {s' : S} {b : B} (p : Result A × S)
    → (elim p.0 as (λ r. Result B × S) [ ok a ↦ f a p.1 | err thrown ↦ (err thrown, p.1) ])
      ≡ (ok b, s')
    → (a : A) × (t : S) × (p ≡ (ok a, t)) × (f a t ≡ (ok b, s'))
after_ok f (ok a, t) e = (a, t, refl, e)
after_ok f (err thrown, t) e = absurd (cc (ap (λ p. p.0) e))

-- Where two steps have not thrown, neither has the first.
pub bind_steps :
    {S A B : Type 0} (m : Exec S A) (f : A → Exec S B) {s s' : S} {b : B}
    → (m >>= f) s ≡ (ok b, s')
    → (a : A) × (t : S) × (m s ≡ (ok a, t)) × (f a t ≡ (ok b, s'))
bind_steps m f {s} e = after_ok f (m s) e

-- class Backend. The const methods read the state.
pub record Backend (S : Type 0) : Type 0 where
  pub get_node : S → Text → Result (Option TreeNode)
  pub upsert_node : List TreeNode → Exec S Bool
  pub delete_node : Text → Exec S Bool
  pub get_page_tree : S → Text → Result (List TreeNode)
  pub relative_get_page_tree : S → TreeNode → Text → Result (List TreeNode)
  pub query_nodes : S → Text → Result (List TreeNode)
  pub relative_query_nodes : S → TreeNode → Text → Result (List TreeNode)
  pub open_transaction_layer : TreeNode → Exec S Bool
  pub close_transaction_layers : Exec S Bool
  pub apply_transaction : Transaction → Exec S Bool
  pub get_full_tree : S → Result (List TreeNode)
  pub register_node_listener : Text → Text → Bool → NodeListenerCallback → Exec S (Unit {0})
  pub deregister_node_listener : Text → Text → Exec S (Unit {0})
  pub notify_listeners : Text → Option TreeNode → Exec S (Unit {0})
  pub process_notifications : Exec S (Unit {0})
