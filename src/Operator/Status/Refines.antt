-- ===== src/Operator/Status/Refines.antt =====
-- The list of states as a map from nodes to states.
use topolvm_operator.Base.{
  ◌≡◌, ◌∙◌, refl, subst, Bool, true, false, Option, none, some, List, [], ◌∷◌, arith, any, not,
  ◌&&◌, Bool-cases, inl, inr, if◌then◌else◌,
}
use topolvm_operator.Base.Text.{Text, same, same_iff, same_comm}
use topolvm_operator.Api.{NodeStorageState, TopolvmCluster}
use topolvm_operator.Operator.Status.{put_state, with_state}

-- The state of a node, by the first entry.
unfoldable pub state_of : Text → List NodeStorageState → Option NodeStorageState
state_of node [] = none
state_of node (n ∷ ns) = if same n.node node then some n else state_of node ns

-- No node has two entries.
abbrev pub distinct : List NodeStorageState → Bool
distinct [] = true
distinct (n ∷ ns) = not (any (λ (x : NodeStorageState). same x.node n.node) ns) && distinct ns

lookup-put :
    (s : NodeStorageState) (ns : List NodeStorageState) (node : Text)
    → state_of node (put_state s ns) ≡ (if same s.node node then some s else state_of node ns)
unfolding same state_of put_state
lookup-put s [] node = refl
lookup-put s (n ∷ ns) node = ground (
  arith,
  same_iff n.node s.node,
  same_iff s.node node,
  same_iff n.node node,
  lookup-put s ns node,
)

absent-put :
    (s : NodeStorageState) (ns : List NodeStorageState) (node : Text)
    → same s.node node ≡ false
    → any (λ (x : NodeStorageState). same x.node node) ns ≡ false
    → any (λ (x : NodeStorageState). same x.node node) (put_state s ns) ≡ false
unfolding put_state
absent-put s [] node h p = rw h refl
absent-put s (n ∷ ns) node h p = ground (
  arith,
  same_iff n.node s.node,
  same_iff s.node node,
  same_iff n.node node,
  h,
  p,
  absent-put s ns node h,
)

distinct-put :
    (s : NodeStorageState) (ns : List NodeStorageState)
    → distinct ns ≡ true
    → distinct (put_state s ns) ≡ true
unfolding put_state
distinct-put s [] h = refl
distinct-put s (n ∷ ns) h = elim (Bool-cases (same n.node s.node)) [
  | inl e ↦ rw e (
      subst
        (λ node. (not (any (λ (x : NodeStorageState). same x.node node) ns) && distinct ns) ≡ true)
        ((same_iff n.node s.node).0 e) h)
  | inr e ↦
      rw
        (
          e,
          absent-put s ns n.node (same_comm s.node n.node ∙ e) (ground (arith, h)),
          distinct-put s ns (ground (arith, h)),
        )
        refl
]

-- Where no node has two entries, the status that is written is the map of the old one updated at the
-- node of the state, and still no node has two entries.
pub with_state-updates :
    (s : NodeStorageState) (c : TopolvmCluster)
    → distinct c.status.node_storage_status ≡ true
    → ((node : Text)
        → state_of node (with_state s c).status.node_storage_status
          ≡ (if same s.node node then some s else state_of node c.status.node_storage_status))
      × (distinct (with_state s c).status.node_storage_status ≡ true)
unfolding with_state put_state
with_state-updates s c h =
    (lookup-put s c.status.node_storage_status, distinct-put s c.status.node_storage_status h)
