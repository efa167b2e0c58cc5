-- ===== src/PrepareVg/Loops/States.antt =====
-- What the states of the loop devices say after `checkLoopDevice`.
use topolvm_operator.Base.{
  ◌∙◌, sym, ap, subst, ◌≡◌, refl, Bool, true, false, Option, none, some, List, [], ◌∷◌, ◌++◌, arith,
  All, All-append, false≢true, if◌then◌else◌, Bool-cases, inl, inr,
}
use topolvm_operator.Base.Text.{Text, same, same_iff}
use topolvm_operator.Base.Maps.{Map, insert, has_key, lookup-insert, lookup-insert_self}
use topolvm_operator.Api.{Disk, LoopState}
use topolvm_operator.Cluster.{loop_create_successful}
use topolvm_operator.Env.{Env, Trace, ok, pure, Outcome, value, error, attempt}
use topolvm_operator.Env.Laws.{bind-ok, ok-injective}
use topolvm_operator.Sys.Loop.{create_loop, get_loop_back_file}
use topolvm_operator.PrepareVg.{loop}
use topolvm_operator.PrepareVg.Loops.{
  Loops, get_absolute_file_name, find_loop, replace_loop, new_state, put_state, make_loop,
  given_state, note_loop, missing_loop, check_found, check_disk, check_loop_device,
}

-- The state says that the loop device was created.
abbrev pub IsSuccessful : LoopState → Type 0
IsSuccessful s = s.status ≡ loop_create_successful

new_state-IsSuccessful :
    (name file : Text) (o : Outcome Text) → IsSuccessful (new_state name file o)
unfolding new_state
new_state-IsSuccessful name file (value d) = refl
new_state-IsSuccessful name file (error x) = refl

given_state-IsSuccessful : (name : Text) (o : Outcome Text) → IsSuccessful (given_state name o)
unfolding given_state
given_state-IsSuccessful name (value f) = refl
given_state-IsSuccessful name (error x) = refl

replace_loop-All :
    (name : Text) (s : LoopState) (ls : List LoopState)
    → IsSuccessful s
    → All IsSuccessful ls
    → All IsSuccessful (replace_loop name s ls)
unfolding replace_loop
replace_loop-All name s [] h a = tt
replace_loop-All name s (l ∷ ls) h (al, a) = elim (Bool-cases (same l.name name)) [
  | inl e ↦ rw e (h, a)
  | inr e ↦ rw e (al, replace_loop-All name s ls h a)
]

-- What one disk does to the states: it keeps them successful, and a loop device of the operator
-- that was there, or is made, has its name in the map.
record IsKept (disk : Disk) (ls ls' : Loops) : Type 0 where
  successful : All IsSuccessful ls.states → All IsSuccessful ls'.states
  named : (j : Text) → has_key j ls.by_name ≡ true → has_key j ls'.by_name ≡ true

keeps_insert :
    (k j : Text) (s : LoopState) (m : Map LoopState)
    → has_key j m ≡ true
    → has_key j (insert k s m) ≡ true
keeps_insert k j s m h = ground (arith, lookup-insert k j s m)

has_insert : (k : Text) (s : LoopState) (m : Map LoopState) → has_key k (insert k s m) ≡ true
has_insert k s m = rw (lookup-insert_self k s m)

put_state-IsKept :
    (disk : Disk) (retry : Bool) (s : LoopState) (ls : Loops)
    → IsSuccessful s
    → IsKept disk ls (put_state retry disk.name s ls)
      × (has_key disk.name (put_state retry disk.name s ls).by_name ≡ true)
unfolding put_state
put_state-IsKept disk true s ls h = (
  record {
    successful = replace_loop-All disk.name s ls.states h;
    named = λ j. keeps_insert disk.name j s ls.by_name;
  },
  has_insert disk.name s ls.by_name,
)
put_state-IsKept disk false s ls h = (
  record {
    successful = λ a. All-append IsSuccessful ls.states (s ∷ []) a (h, tt);
    named = λ j. keeps_insert disk.name j s ls.by_name;
  },
  has_insert disk.name s ls.by_name,
)

-- An automatic disk of type `loop` has its name in the map.
abbrev Named : Disk → Loops → Type 0
Named disk ls = disk.auto ≡ true → has_key disk.name ls.by_name ≡ true

make_loop-IsKept :
    (disk : Disk) (retry : Bool) (ls : Loops) (e : Env) (t : Trace) {ls' : Loops}
    → (make_loop disk retry ls e t).0 ≡ ok ls'
    → IsKept disk ls ls' × (has_key disk.name ls'.by_name ≡ true)
unfolding make_loop
make_loop-IsKept disk retry ls e t h =
    let file = get_absolute_file_name disk.path (e.new_uuid t) in
    let made = attempt (create_loop file disk.size) in
    let (o, p, step) =
      bind-ok made (λ r. pure (put_state retry disk.name (new_state disk.name file r) ls)) e t h in
    subst (λ l. IsKept disk ls l × (has_key disk.name l.by_name ≡ true))
      (ok-injective (ap (λ r. r.0) (sym step) ∙ h))
      (put_state-IsKept disk retry (new_state disk.name file o) ls
        (new_state-IsSuccessful disk.name file o))

note_loop-IsKept :
    (disk : Disk) (ls : Loops) (e : Env) (t : Trace) {ls' : Loops}
    → (note_loop disk ls e t).0 ≡ ok ls'
    → IsKept disk ls ls'
unfolding note_loop
note_loop-IsKept disk ls e t h =
    let (o, p, step) =
      bind-ok (attempt (get_loop_back_file disk.name))
        (λ r. pure (record ls { states = ls.states ++ given_state disk.name r ∷ [] })) e t h in
    subst (IsKept disk ls) (ok-injective (ap (λ r. r.0) (sym step) ∙ h)) (record {
      successful = λ a.
          All-append IsSuccessful ls.states (given_state disk.name o ∷ []) a
            (given_state-IsSuccessful disk.name o, tt);
      named = λ j q. q;
    })

branch-IsKept :
    (b : Bool) (disk : Disk) (retry : Bool) (ls : Loops) (e : Env) (t : Trace) {ls' : Loops}
    → disk.auto ≡ b
    → ((if b then make_loop disk retry ls else note_loop disk ls) e t).0 ≡ ok ls'
    → IsKept disk ls ls' × Named disk ls'
branch-IsKept true disk retry ls e t p h =
    let (kept, named) = make_loop-IsKept disk retry ls e t h in (kept, λ q. named)
branch-IsKept false disk retry ls e t p h =
    (note_loop-IsKept disk ls e t h, λ q. absurd (false≢true (sym p ∙ q)))

missing_loop-IsKept :
    (disk : Disk) (retry : Bool) (ls : Loops) (e : Env) (t : Trace) {ls' : Loops}
    → (missing_loop disk retry ls e t).0 ≡ ok ls'
    → IsKept disk ls ls' × Named disk ls'
unfolding missing_loop
missing_loop-IsKept disk retry ls e t h = branch-IsKept disk.auto disk retry ls e t refl h

find_loop-name :
    (name : Text) (ls : List LoopState) (l : LoopState) → find_loop name ls ≡ some l → l.name ≡ name
unfolding find_loop
find_loop-name name [] l h = cc
find_loop-name name (x ∷ ls) l h = ground (arith, same_iff x.name name, find_loop-name name ls l)

found-IsKept :
    (b : Bool) (disk : Disk) (l : LoopState) (ls : Loops) (e : Env) (t : Trace) {ls' : Loops}
    → l.name ≡ disk.name
    → ((if b
          then pure (record ls { by_name = insert l.name l ls.by_name })
          else missing_loop disk true ls)
        e t).0
      ≡ ok ls'
    → IsKept disk ls ls' × Named disk ls'
found-IsKept true disk l ls e t n h =
    subst (λ x. IsKept disk ls x × Named disk x) (ok-injective h)
      (
        record { successful = λ a. a; named = λ j. keeps_insert l.name j l ls.by_name },
        λ q.
            subst (λ k. has_key k (insert l.name l ls.by_name) ≡ true) n
              (has_insert l.name l ls.by_name),
      )
found-IsKept false disk l ls e t n h = missing_loop-IsKept disk true ls e t h

check_found-IsKept :
    (disk : Disk) (ls : Loops) (o : Option LoopState) (e : Env) (t : Trace) {ls' : Loops}
    → find_loop disk.name ls.states ≡ o
    → (check_found disk ls o e t).0 ≡ ok ls'
    → IsKept disk ls ls' × Named disk ls'
unfolding check_found
check_found-IsKept disk ls none e t p h = missing_loop-IsKept disk false ls e t h
check_found-IsKept disk ls (some l) e t p h =
    found-IsKept (same l.status loop_create_successful) disk l ls e t
      (find_loop-name disk.name ls.states l p) h

-- A disk that the operator makes a loop device for.
abbrev pub IsAutoLoop : Disk → Type 0
IsAutoLoop disk = (disk.type ≡ loop) × (disk.auto ≡ true)

typed-IsKept :
    (b : Bool) (disk : Disk) (ls : Loops) (e : Env) (t : Trace) {ls' : Loops}
    → same disk.type loop ≡ b
    → ((if b then check_found disk ls (find_loop disk.name ls.states) else pure ls) e t).0 ≡ ok ls'
    → IsKept disk ls ls' × (IsAutoLoop disk → has_key disk.name ls'.by_name ≡ true)
typed-IsKept true disk ls e t p h =
    let (kept, named) = check_found-IsKept disk ls (find_loop disk.name ls.states) e t refl h in
    (kept, λ a. named a.1)
typed-IsKept false disk ls e t p h =
    subst (λ x. IsKept disk ls x × (IsAutoLoop disk → has_key disk.name x.by_name ≡ true))
      (ok-injective h)
      (
        record { successful = λ a. a; named = λ j q. q },
        λ a. absurd (false≢true (sym p ∙ (same_iff disk.type loop).1 a.0)),
      )

check_disk-IsKept :
    (disk : Disk) (ls : Loops) (e : Env) (t : Trace) {ls' : Loops}
    → (check_disk disk ls e t).0 ≡ ok ls'
    → IsKept disk ls ls' × (IsAutoLoop disk → has_key disk.name ls'.by_name ≡ true)
unfolding check_disk
check_disk-IsKept disk ls e t h = typed-IsKept (same disk.type loop) disk ls e t refl h

-- The states stay successful, names stay in the map, and every loop device of the operator among
-- the disks has its name there.
record IsChecked (disks : List Disk) (ls ls' : Loops) : Type 0 where
  successful : All IsSuccessful ls.states → All IsSuccessful ls'.states
  named : (j : Text) → has_key j ls.by_name ≡ true → has_key j ls'.by_name ≡ true
  all_named : All (λ disk. IsAutoLoop disk → has_key disk.name ls'.by_name ≡ true) disks

check_loop_device-IsChecked :
    (disks : List Disk) (ls : Loops) (e : Env) (t : Trace) {ls' : Loops}
    → (check_loop_device disks ls e t).0 ≡ ok ls'
    → IsChecked disks ls ls'
unfolding check_loop_device
check_loop_device-IsChecked [] ls e t h =
    subst (IsChecked [] ls) (ok-injective h)
      (record { successful = λ a. a; named = λ j q. q; all_named = tt })
check_loop_device-IsChecked (d ∷ ds) ls e t {ls'} h =
    let (mid, p, step) = bind-ok (check_disk d ls) (check_loop_device ds) e t h in
    let (kept, named) = check_disk-IsKept d ls e t p in
    let rest =
      check_loop_device-IsChecked ds mid e (check_disk d ls e t).1 (ap (λ r. r.0) (sym step) ∙ h) in
    record {
      successful = λ a. rest.successful (kept.successful a);
      named = λ j q. rest.named j (kept.named j q);
      all_named = ((λ a. rest.named d.name (named a)), rest.all_named);
    }

-- After the check, every disk for which the operator makes a loop device has an entry in the map of
-- loop devices, and the entries that were there before still have one.
pub check_loop_device-named :
    (disks : List Disk) (ls : Loops) (e : Env) (t : Trace) (ls' : Loops)
    → (check_loop_device disks ls e t).0 ≡ ok ls'
    → All (λ disk. IsAutoLoop disk → has_key disk.name ls'.by_name ≡ true) disks
      × ((j : Text) → has_key j ls.by_name ≡ true → has_key j ls'.by_name ≡ true)
check_loop_device-named disks ls e t ls' h =
    let c = check_loop_device-IsChecked disks ls e t h in (c.all_named, c.named)

-- Whatever the commands answer, a check that starts with successful states, or with none, marks
-- every state as successful: a loop device that could not be made is never recorded as failed.
pub check_loop_device-All-IsSuccessful :
    (disks : List Disk) (ls : Loops) (e : Env) (t : Trace) (ls' : Loops)
    → All IsSuccessful ls.states
    → (check_loop_device disks ls e t).0 ≡ ok ls'
    → All IsSuccessful ls'.states
check_loop_device-All-IsSuccessful disks ls e t ls' a h =
    (check_loop_device-IsChecked disks ls e t h).successful a
