-- ===== src/Tests/Mounts.antt =====
-- Tests of RedirectedBackend and CompositeBackend, and examples for their theorems.
use world_wide_anthropomorph.Text.{starts_with, text_eq, Text, bytes, slash, text_lt}
use world_wide_anthropomorph.Base.{
  ◌+◌, ◌≡◌, ◌⊎◌, ◌++◌, refl, none, some, [], ◌∷◌, ok, err, Error, length,
}
use world_wide_anthropomorph.OrderedMap.{OrderedMap, lookup, insert}
use world_wide_anthropomorph.OrderedMap.Sorted.{IsSorted}
use world_wide_anthropomorph.TreeNode.{TreeNode}
use world_wide_anthropomorph.TreeNode.Labels.RoundTrip.{NodeIsOutside}
use world_wide_anthropomorph.SimpleBackend.{SimpleBackend, simple_backend}
use world_wide_anthropomorph.RedirectedBackend
use world_wide_anthropomorph.RedirectedBackend.Laws.{get_node-upsert_node_outside}
use world_wide_anthropomorph.CompositeBackend.{
  CompositeBackend, get_relevant_backend, mount_backend,
}
use world_wide_anthropomorph.CompositeBackend.Routing.{
  LeadsTo, NothingBetween, get_relevant_backend_sound, get_relevant_backend-below,
}
use world_wide_anthropomorph.CompositeBackend.Mounting.{Apart, mount_backend-cases}
use world_wide_anthropomorph.Tests.{home, three_backend, node_at}

abbrev mount_prefix : Text
mount_prefix = bytes "m/"

home_outside : NodeIsOutside mount_prefix home
unfolding starts_with
home_outside = (refl, (refl, tt))

get_node-upsert_node_outside_example :
    RedirectedBackend.get_node simple_backend mount_prefix
      (RedirectedBackend.upsert_node simple_backend mount_prefix (home ∷ []) three_backend).1
      (bytes "a")
    ≡ ok (some home)
get_node-upsert_node_outside_example =
    get_node-upsert_node_outside mount_prefix home three_backend refl refl home_outside

abbrev inner : TreeNode
inner = node_at (bytes "m/x") [] 0

abbrev two_mounts : OrderedMap SimpleBackend
two_mounts = (bytes "k", three_backend) ∷ (bytes "m", three_backend) ∷ []

two-IsSorted : IsSorted two_mounts
unfolding text_lt
two-IsSorted = ((refl, tt), (tt, tt))

m_mounted : lookup (bytes "m") two_mounts ≡ some three_backend
unfolding lookup text_eq
m_mounted = refl

sent_to_m : (get_relevant_backend two_mounts (bytes "m/x")).mount ≡ some (bytes "m")
unfolding get_relevant_backend text_lt starts_with
sent_to_m = refl

get_relevant_backend_sound_example :
    LeadsTo (bytes "m/x") (bytes "m") (get_relevant_backend two_mounts (bytes "m/x")).index
get_relevant_backend_sound_example =
    get_relevant_backend_sound two_mounts (bytes "m/x") (bytes "m") sent_to_m

clear_of_m : NothingBetween (bytes "m") (bytes "m" ++ slash ∷ bytes "x") two_mounts
unfolding text_lt
clear_of_m = ((λ h. cc h), ((λ h. cc h), tt))

get_relevant_backend-below_example :
    get_relevant_backend two_mounts (bytes "m" ++ slash ∷ bytes "x")
    ≡ record { index = length (bytes "m") + 1; mount = some (bytes "m") }
get_relevant_backend-below_example =
    get_relevant_backend-below two_mounts (bytes "m") (bytes "x") three_backend two-IsSorted
      m_mounted clear_of_m

abbrev mounts : CompositeBackend SimpleBackend
mounts = record { root = three_backend; mounted = two_mounts }

mount_backend-cases_example :
    ((mount_backend simple_backend (bytes "p/q") three_backend mounts
        ≡ (ok tt, record mounts { mounted = insert (bytes "p/q") three_backend two_mounts }))
      × (lookup (bytes "p/q") two_mounts ≡ none)
      × (simple_backend.get_node three_backend (bytes "p/q") ≡ ok none)
      × Apart (bytes "p/q") two_mounts)
    ⊎ ((e : Error) × (mount_backend simple_backend (bytes "p/q") three_backend mounts
          ≡ (err e, mounts)))
mount_backend-cases_example = mount_backend-cases simple_backend (bytes "p/q") three_backend mounts
