-- ===== src/Monitor/Covered.antt =====
-- Which nodes have an entry in the status.
use topolvm_operator.Base.{
  ◌≡◌, ◌≢◌, ◌∙◌, sym, refl, subst, Bool, true, false, Option, none, some, List, [], ◌∷◌, ◌++◌, any,
  map, All, Has, inl, inr, arith, Bool-cases, if◌then◌else◌,
}
use topolvm_operator.Base.Text.{Text, same, same_iff}
use topolvm_operator.Base.Maps.{
  Map, lookup, insert, has_key, keys, keys-Has, lookup-insert, lookup-insert_self,
}
use topolvm_operator.Api.{NodeStorageState, ClusterStatus, condition_failure}
use topolvm_operator.Monitor.{
  Pod, Conditions, state_of, pod_phase, has_pod, put_pods, put_node, put_nodes, known_phase,
  set_phase, merge_node, merge_found, merge, with_classes, finish, check_status,
}

-- Each state is kept under the name of its node.
abbrev IsNamed : Map NodeStorageState → Type 0
IsNamed m = (k : Text) (v : NodeStorageState) → lookup k m ≡ some v → v.node ≡ k

insert-IsNamed :
    (k phase : Text) (m : Map NodeStorageState)
    → IsNamed m
    → IsNamed (insert k (state_of k phase) m)
unfolding state_of
insert-IsNamed k phase m h j v p =
    ground (arith, lookup-insert k j (state_of k phase) m, same_iff k j, h j v, p)

has_insert :
    (k j : Text) (v : NodeStorageState) (m : Map NodeStorageState)
    → has_key j m ≡ true
    → has_key j (insert k v m) ≡ true
has_insert k j v m h = ground (arith, lookup-insert k j v m)

has_insert_self :
    (k : Text) (v : NodeStorageState) (m : Map NodeStorageState) → has_key k (insert k v m) ≡ true
has_insert_self k v m = rw (lookup-insert_self k v m)

-- What a step keeps of the map.
record Keeps (m m' : Map NodeStorageState) : Type 0 where
  named : IsNamed m → IsNamed m'
  has : (j : Text) → has_key j m ≡ true → has_key j m' ≡ true

pod_step :
    (b : Bool) (node phase : Text) (m : Map NodeStorageState)
    → Keeps m (if b then insert node (state_of node phase) m else m)
pod_step true node phase m = record {
  named = insert-IsNamed node phase m;
  has = λ j h. has_insert node j (state_of node phase) m h;
}
pod_step false node phase m = record { named = λ h. h; has = λ j h. h }

Keeps-trans : (a b c : Map NodeStorageState) → Keeps a b → Keeps b c → Keeps a c
Keeps-trans a b c f g = record {
  named = λ h. g.named (f.named h);
  has = λ j h. g.has j (f.has j h);
}

put_pods-Keeps :
    (node : Text) (ps : List Pod) (m : Map NodeStorageState) → Keeps m (put_pods node ps m)
unfolding put_pods
put_pods-Keeps node [] m = record { named = λ h. h; has = λ j h. h }
put_pods-Keeps node (p ∷ ps) m =
    Keeps-trans m _ _ (pod_step (same p.node_name node) node (pod_phase p) m)
      (put_pods-Keeps node ps _)

put_pods-has :
    (node : Text) (ps : List Pod) (m : Map NodeStorageState)
    → has_pod node ps ≡ true
    → has_key node (put_pods node ps m) ≡ true
unfolding put_pods has_pod
put_pods-has node [] m h = absurd (cc)
put_pods-has node (p ∷ ps) m h = elim (Bool-cases (same p.node_name node)) [
  | inl e ↦ rw e ((put_pods-Keeps node ps _).has node (has_insert_self node _ m))
  | inr e ↦ rw e (put_pods-has node ps m (ground (arith, h, e)))
]

node_step :
    (pods : List Pod) (node : Text) (m : Map NodeStorageState) (b : Bool)
    → has_pod node pods ≡ b
    → Keeps m (put_node pods node m) × (has_key node (put_node pods node m) ≡ true)
unfolding put_node
node_step pods node m true h =
    (rw h (put_pods-Keeps node pods m), rw h (put_pods-has node pods m h))
node_step pods node m false h =
    (rw h (pod_step true node condition_failure m), rw h (has_insert_self node _ m))

put_nodes-Keeps :
    (pods : List Pod) (ns : List Text) (m : Map NodeStorageState)
    → Keeps m (put_nodes pods ns m) × All (λ n. has_key n (put_nodes pods ns m) ≡ true) ns
unfolding put_nodes
put_nodes-Keeps pods [] m = (record { named = λ h. h; has = λ j h. h }, tt)
put_nodes-Keeps pods (n ∷ ns) m =
    let (keeps, here) = node_step pods n m (has_pod n pods) refl in
    let (rest, all) = put_nodes-Keeps pods ns (put_node pods n m) in
    (Keeps-trans m _ _ keeps rest, (rest.has n here, all))

-- Some state of the list is of the node.
abbrev pub listed : Text → List NodeStorageState → Bool
listed node ns = any (λ (n : NodeStorageState). same n.node node) ns

-- A change that leaves the names of the nodes alone.
listed-map :
    (f : NodeStorageState → NodeStorageState) (node : Text) (ns : List NodeStorageState)
    → ((n : NodeStorageState) → (f n).node ≡ n.node)
    → listed node (map f ns) ≡ listed node ns
listed-map f node [] h = refl
listed-map f node (n ∷ ns) h = rw (h n, listed-map f node ns h) refl

set_phase-node : (key : Text) (v n : NodeStorageState) → (set_phase key v n).node ≡ n.node
unfolding set_phase
set_phase-node key v n = ground arith

with_classes-node : (n : NodeStorageState) → (with_classes n).node ≡ n.node
unfolding with_classes
with_classes-node n = ground arith

known_phase-node :
    (conditions : Conditions) (key : Text) (n : NodeStorageState)
    → (known_phase conditions key n).node ≡ n.node
unfolding known_phase
known_phase-node conditions key n = ground arith

listed_end :
    (ns : List NodeStorageState) (v : NodeStorageState) (j : Text)
    → same v.node j ≡ true
    → listed j (ns ++ v ∷ []) ≡ true
listed_end [] v j h = rw h refl
listed_end (n ∷ ns) v j h = ground (arith, listed_end ns v j h)

listed_front :
    (ns : List NodeStorageState) (v : NodeStorageState) (j : Text)
    → listed j ns ≡ true
    → listed j (ns ++ v ∷ []) ≡ true
listed_front [] v j h = absurd (cc)
listed_front (n ∷ ns) v j h = elim (Bool-cases (same n.node j)) [
  | inl e ↦ rw e refl
  | inr e ↦ rw e (listed_front ns v j (ground (arith, h, e)))
]

merge_step :
    (key : Text) (v : NodeStorageState) (ns : List NodeStorageState) (b : Bool)
    → v.node ≡ key
    → listed key ns ≡ b
    → (listed key (merge_node key v ns) ≡ true)
      × ((j : Text) → listed j ns ≡ true → listed j (merge_node key v ns) ≡ true)
unfolding merge_node
merge_step key v ns true p h = (
  rw h (listed-map (set_phase key v) key ns (set_phase-node key v) ∙ h),
  λ j q. rw h (listed-map (set_phase key v) j ns (set_phase-node key v) ∙ q),
)
merge_step key v ns false p h = (
  rw h (listed_end ns v key (ground (arith, same_iff v.node key, p))),
  λ j q. rw h (listed_front ns v j q),
)

found_step :
    (conditions : Conditions) (m : Map NodeStorageState) (key : Text) (o : Option NodeStorageState)
    (ns : List NodeStorageState)
    → IsNamed m
    → lookup key m ≡ o
    → (o ≢ none → listed key (merge_found conditions key o ns) ≡ true)
      × ((j : Text) → listed j ns ≡ true → listed j (merge_found conditions key o ns) ≡ true)
unfolding merge_found
found_step conditions m key none ns h p = ((λ q. absurd (q refl)), λ j q. q)
found_step conditions m key (some v) ns h p =
    let (now, others) =
      merge_step key (known_phase conditions key v) ns (listed key ns)
        (known_phase-node conditions key v ∙ h key v p) refl in
    ((λ q. now), others)

merge-listed :
    (conditions : Conditions) (m : Map NodeStorageState) (ks : List Text)
    (ns : List NodeStorageState)
    → IsNamed m
    → ((j : Text) → listed j ns ≡ true → listed j (merge conditions m ks ns) ≡ true)
      × ((j : Text) → Has j ks → has_key j m ≡ true → listed j (merge conditions m ks ns) ≡ true)
unfolding merge
merge-listed conditions m [] ns h = ((λ j q. q), λ j q p. absurd q)
merge-listed conditions m (k ∷ ks) ns h =
    let (now, others) = found_step conditions m k (lookup k m) ns h refl in
    let (keeps, rest) = merge-listed conditions m ks (merge_found conditions k (lookup k m) ns) h in
    (
      (λ j q. keeps j (others j q)),
      λ j q p. elim q [
        | inl e ↦
            subst
              (λ i.
                listed i (merge conditions m ks (merge_found conditions k (lookup k m) ns)) ≡ true)
              e (keeps k (now (λ z. ground (arith, z, subst (λ i. has_key i m ≡ true) (sym e) p))))
        | inr r ↦ rest j r p
      ],
    )

each_listed :
    (m : Map NodeStorageState) (ks nodes : List Text) (r : List NodeStorageState)
    → ((j : Text) → Has j ks → has_key j m ≡ true → listed j r ≡ true)
    → ((j : Text) → has_key j m ≡ true → Has j ks)
    → All (λ n. has_key n m ≡ true) nodes
    → All (λ n. listed n (map with_classes r) ≡ true) nodes
each_listed m ks [] r f v a = tt
each_listed m ks (n ∷ nodes) r f v (h, a) =
    (listed-map with_classes n r with_classes-node ∙ f n (v n h) h, each_listed m ks nodes r f v a)

nothing : (k : Text) (v : NodeStorageState) → lookup k [] ≡ some v → ⊥
unfolding lookup
nothing k v h = cc

-- Where Go visits every key, the status that is written has an entry for every node that is looked
-- at, whether it has pods or not, and whether the old status had one.
pub check_status-lists_nodes :
    (nodes : List Text) (pods : List Pod) (conditions : Conditions) (order : List Text → List Text)
    (status : ClusterStatus)
    → ((ks : List Text) (k : Text) → Has k ks → Has k (order ks))
    → All
        (λ n. listed n (check_status nodes pods conditions order status).node_storage_status ≡ true)
        nodes
unfolding check_status finish
check_status-lists_nodes nodes pods conditions order status visits =
    let m = put_nodes pods nodes [] in
    let (keeps, there) = put_nodes-Keeps pods nodes [] in
    let (old, rest) =
      merge-listed conditions m (order (keys m)) status.node_storage_status
        (keeps.named (λ k v p. absurd (nothing k v p))) in
    each_listed m (order (keys m)) nodes _ rest (λ j h. visits (keys m) j (keys-Has j m h)) there
