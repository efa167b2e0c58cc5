-- ===== src/Monitor/Phases.antt =====
-- What the phases say.
use topolvm_operator.Base.{
  ◌≡◌, ◌≢◌, ◌∙◌, refl, ap, Bool, true, false, List, [], ◌∷◌, any, map, All, Has, inl, inr, arith,
  Bool-cases, if◌then◌else◌,
}
use topolvm_operator.Base.Text.{Text, same, same_iff}
use topolvm_operator.Api.{
  ClassState, NodeStorageState, ClusterStatus, class_ready, condition_ready, condition_failure,
}
use topolvm_operator.Monitor.{Pod, Conditions, node_ready, with_classes, finish, check_status}

-- A node that does not fail has a class that is ready.
abbrev pub IsBacked : NodeStorageState → Type 0
IsBacked n =
    n.phase ≢ condition_failure
    → (c : ClassState) × Has c n.success_classes × (c.state ≡ class_ready)

ready_class :
    (cs : List ClassState)
    → any (λ (c : ClassState). same c.state class_ready) cs ≡ true
    → (c : ClassState) × Has c cs × (c.state ≡ class_ready)
ready_class [] h = absurd (cc)
ready_class (c ∷ cs) h = elim (Bool-cases (same c.state class_ready)) [
  | inl e ↦ (c, inl refl, (same_iff c.state class_ready).0 e)
  | inr e ↦ let (d, has, ready) = ready_class cs (ground (arith, h, e)) in (d, inr has, ready)
]

backed :
    (n : NodeStorageState) (b : Bool)
    → node_ready n ≡ b
    → IsBacked (if b then n else record n { phase = condition_failure })
unfolding node_ready
backed n true h p = ready_class n.success_classes h
backed n false h p = absurd (p refl)

All-IsBacked : (ns : List NodeStorageState) → All IsBacked (map with_classes ns)
unfolding with_classes
All-IsBacked [] = tt
All-IsBacked (n ∷ ns) = (backed n (node_ready n) refl, All-IsBacked ns)

-- Whatever pods and nodes the API lists, in the status that is written every node whose phase is not
-- the failure has a class that is ready.
pub check_status-All-IsBacked :
    (nodes : List Text) (pods : List Pod) (conditions : Conditions) (order : List Text → List Text)
    (status : ClusterStatus)
    → All IsBacked (check_status nodes pods conditions order status).node_storage_status
unfolding check_status finish
check_status-All-IsBacked nodes pods conditions order status = All-IsBacked _

any_ready :
    (ns : List NodeStorageState) (n : NodeStorageState)
    → Has n ns
    → n.phase ≡ condition_ready
    → any (λ (n : NodeStorageState). same n.phase condition_ready) ns ≡ true
any_ready [] n h p = absurd h
any_ready (m ∷ ns) n (inl e) p =
    let q : same m.phase condition_ready ≡ true =
      (same_iff m.phase condition_ready).1 (ap (λ (x : NodeStorageState). x.phase) e ∙ p) in
    ground (arith, q)
any_ready (m ∷ ns) n (inr h) p = ground (arith, any_ready ns n h p)

each_failed :
    (ns : List NodeStorageState)
    → All (λ n. node_ready n ≡ false) ns
    → All (λ (n : NodeStorageState). n.phase ≡ condition_failure) (map with_classes ns)
unfolding with_classes
each_failed [] a = tt
each_failed (n ∷ ns) (h, a) = (rw h refl, each_failed ns a)

-- Where no node has a ready class, and the pod of one of them is ready, every node is marked as
-- failed and the cluster all the same as ready.
pub finish-ready_without_nodes :
    (ns : List NodeStorageState) (n : NodeStorageState)
    → All (λ n. node_ready n ≡ false) ns
    → Has n ns
    → n.phase ≡ condition_ready
    → ((finish ns).phase ≡ condition_ready)
      × All (λ (n : NodeStorageState). n.phase ≡ condition_failure) (finish ns).node_storage_status
unfolding finish
finish-ready_without_nodes ns n a h p = (rw (any_ready ns n h p) refl, each_failed ns a)
