-- ===== src/Sys/Parse/Pairs.antt =====
-- Reading back the lines that `lsblk --pairs` and `udevadm info` print.
use topolvm_operator.Base.{
  ℕ, ◌∙◌, ◌≡◌, ◌≢◌, refl, ap, Option, none, some, List, [], ◌∷◌, ◌++◌, map, arith, All, All-append,
  append-nil, if◌then◌else◌,
}
use topolvm_operator.Base.Text.{Text, same}
use topolvm_operator.Base.Maps.{Map, lookup, insert, lookup-insert}
use topolvm_operator.Go.Strings.{split, join, remove_byte}
use topolvm_operator.Go.Strings.Laws.{
  Lacks, split-Lacks, split-append, split-join, split-ne-nil, remove_byte-Lacks, remove_byte-append,
}
use topolvm_operator.Sys.Parse.{
  add_pair, add_pairs, parse_key_value_pair_string, add_udev, add_lines, parse_udev_info,
}

-- The value of the last field of a name: a later assignment wins.
abbrev pub latest : Text → List (Text × Text) → Option Text
latest k [] = none
latest k ((j, v) ∷ fs) = elim (latest k fs) [
  | some w ↦ some w
  | none ↦ if same j k then some v else none
]

abbrev pub over : Option Text → Option Text → Option Text
over (some w) o = some w
over none o = o

abbrev pub assign : List (Text × Text) → Map Text → Map Text
assign [] m = m
assign ((k, v) ∷ fs) m = assign fs (insert k v m)

pub lookup-assign :
    (k : Text) (fs : List (Text × Text)) (m : Map Text)
    → lookup k (assign fs m) ≡ over (latest k fs) (lookup k m)
lookup-assign k [] m = refl
lookup-assign k ((j, v) ∷ fs) m =
    ground (arith, lookup-assign k fs (insert j v m), lookup-insert j k v m)

pub lookup-assign-nil : (k : Text) (fs : List (Text × Text)) → lookup k (assign fs []) ≡ latest k fs
unfolding lookup
lookup-assign-nil k fs = ground (arith, lookup-assign k fs [])

abbrev pub render_pair : Text × Text → Text
render_pair (k, v) = k ++ b'=' ∷ b'"' ∷ (v ++ b'"' ∷ [])

-- The fields that `lsblk` prints without an escape.
pub record IsPlain (f : Text × Text) : Type 0 where
  pub key_space : Lacks b' ' f.0
  pub key_equals : Lacks b'=' f.0
  pub value_space : Lacks b' ' f.1
  pub value_equals : Lacks b'=' f.1
  pub value_quote : Lacks b'"' f.1

quoted-Lacks : (v : Text) (c : ℕ) → c ≢ b'"' → Lacks c v → Lacks c (b'"' ∷ (v ++ b'"' ∷ []))
quoted-Lacks v c n h = (omega arith, All-append (λ x. x ≢ c) v (b'"' ∷ []) h (omega arith))

render_pair-Lacks : (f : Text × Text) → IsPlain f → Lacks b' ' (render_pair f)
render_pair-Lacks (k, v) h =
    All-append (λ x. x ≢ b' ') k (b'=' ∷ b'"' ∷ (v ++ b'"' ∷ [])) h.key_space
      (omega arith, quoted-Lacks v b' ' (omega arith) h.value_space)

remove_quotes : (v : Text) → Lacks b'"' v → remove_byte (b'"' ∷ (v ++ b'"' ∷ [])) b'"' ≡ v
unfolding remove_byte
remove_quotes v h =
    remove_byte-append v (b'"' ∷ []) b'"'
    ∙ ap (λ w. w ++ []) (remove_byte-Lacks v b'"' h)
    ∙ append-nil v

add_pair-render :
    (m : Map Text) (f : Text × Text)
    → IsPlain f
    → add_pair m (split (render_pair f) b'=') ≡ insert f.0 f.1 m
unfolding add_pair
add_pair-render m (k, v) h =
    ap (add_pair m) (
      split-append k (b'"' ∷ (v ++ b'"' ∷ [])) b'=' h.key_equals
      ∙ ap (λ r. k ∷ r)
          (split-Lacks (b'"' ∷ (v ++ b'"' ∷ [])) b'='
            (quoted-Lacks v b'=' (omega arith) h.value_equals)))
    ∙ ap (λ w. insert k w m) (remove_quotes v h.value_quote)

add_pairs-render :
    (fs : List (Text × Text)) (m : Map Text)
    → All IsPlain fs
    → add_pairs (map render_pair fs) m ≡ assign fs m
unfolding add_pairs
add_pairs-render [] m h = refl
add_pairs-render (f ∷ fs) m (hf, hs) =
    ap (add_pairs (map render_pair fs)) (add_pair-render m f hf)
    ∙ add_pairs-render fs (insert f.0 f.1 m) hs

map-render_pair-Lacks :
    (fs : List (Text × Text)) → All IsPlain fs → All (Lacks b' ') (map render_pair fs)
map-render_pair-Lacks [] h = tt
map-render_pair-Lacks (f ∷ fs) (hf, hs) = (render_pair-Lacks f hf, map-render_pair-Lacks fs hs)

map-ne-nil : {A : Type 0} (g : A → Text) (fs : List A) → fs ≢ [] → map g fs ≢ []
map-ne-nil g [] h e = h refl
map-ne-nil g (f ∷ fs) h e = cc

-- Parsing one or more plain fields, printed as pairs between spaces, gives under each name the
-- value of the last field of that name, and nothing under any other name.
pub lookup-parse_key_value_pair_string :
    (fs : List (Text × Text)) (k : Text)
    → fs ≢ []
    → All IsPlain fs
    → lookup k (parse_key_value_pair_string (join (map render_pair fs) b' ')) ≡ latest k fs
unfolding parse_key_value_pair_string
lookup-parse_key_value_pair_string fs k n h =
    ap (λ ps. lookup k (add_pairs ps []))
      (split-join (map render_pair fs) b' ' (map-ne-nil render_pair fs n)
        (map-render_pair-Lacks fs h))
    ∙ ap (lookup k) (add_pairs-render fs [] h)
    ∙ lookup-assign-nil k fs

-- A property of udev as a line, and what the parser keeps of its value: it cuts at an equals sign.
abbrev pub render_line : Text × Text → Text
render_line (k, v) = k ++ b'=' ∷ v

abbrev pub first_part : List Text → Text
first_part [] = []
first_part (p ∷ ps) = p

abbrev pub cut : Text × Text → Text × Text
cut (k, v) = (k, first_part (split v b'='))

pub record IsLine (f : Text × Text) : Type 0 where
  pub key_line : Lacks b'\n' f.0
  pub key_equals : Lacks b'=' f.0
  pub value_line : Lacks b'\n' f.1

add_udev-parts :
    (k : Text) (ps : List Text) (m : Map Text)
    → ps ≢ []
    → add_udev m (k ∷ ps) ≡ insert k (first_part ps) m
unfolding add_udev
add_udev-parts k [] m h = absurd (h refl)
add_udev-parts k (v ∷ ps) m h = refl

add_lines-render :
    (fs : List (Text × Text)) (m : Map Text)
    → All IsLine fs
    → add_lines (map render_line fs) m ≡ assign (map cut fs) m
unfolding add_lines
add_lines-render [] m h = refl
add_lines-render ((k, v) ∷ fs) m (hf, hs) =
    ap (add_lines (map render_line fs)) (
      ap (add_udev m) (split-append k v b'=' hf.key_equals)
      ∙ add_udev-parts k (split v b'=') m (split-ne-nil v b'='))
    ∙ add_lines-render fs (insert k (first_part (split v b'=')) m) hs

map-render_line-Lacks :
    (fs : List (Text × Text)) → All IsLine fs → All (Lacks b'\n') (map render_line fs)
map-render_line-Lacks [] h = tt
map-render_line-Lacks ((k, v) ∷ fs) (hf, hs) = (
  All-append (λ x. x ≢ b'\n') k (b'=' ∷ v) hf.key_line (omega arith, hf.value_line),
  map-render_line-Lacks fs hs,
)

-- Parsing one or more properties, one to a line, gives under each name what stands before the first
-- equals sign of the value of the last property of that name, and nothing under any other name.
pub lookup-parse_udev_info :
    (fs : List (Text × Text)) (k : Text)
    → fs ≢ []
    → All IsLine fs
    → lookup k (parse_udev_info (join (map render_line fs) b'\n')) ≡ latest k (map cut fs)
unfolding parse_udev_info
lookup-parse_udev_info fs k n h =
    ap (λ ls. lookup k (add_lines ls []))
      (split-join (map render_line fs) b'\n' (map-ne-nil render_line fs n)
        (map-render_line-Lacks fs h))
    ∙ ap (lookup k) (add_lines-render fs [] h)
    ∙ lookup-assign-nil k (map cut fs)
