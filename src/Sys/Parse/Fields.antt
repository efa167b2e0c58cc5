-- ===== src/Sys/Parse/Fields.antt =====
-- Reading back the lines that the commands of `lvm` print with `--nameprefixes`.
use mathlib.Core.List.{reverse-append, reverse-reverse}
use topolvm_operator.Base.{
  ℕ, zero, suc, ◌∙◌, ◌≡◌, ◌≢◌, refl, sym, ap, Bool, true, false, some, List, [], ◌∷◌, ◌++◌, map,
  reverse, arith, All, All-append, append_assoc, ◌==◌, subst,
}
use topolvm_operator.Base.Text.{Text, codes}
use topolvm_operator.Base.Maps.{Map, lookup, insert}
use topolvm_operator.Go.Strings.{
  split, join, drop_while, trim_by, trim_space, trim, to_lower, is_space,
}
use topolvm_operator.Go.Strings.Laws.{Lacks, split-Lacks, split-append, split-join}
use topolvm_operator.Sys.Parse.{drop_prefix, token_field, add_tokens, parse_one_line}
use topolvm_operator.Sys.Parse.Pairs.{latest, assign, lookup-assign-nil}

-- No byte of the text passes the test.
abbrev Fails : (ℕ → Bool) → Text → Type 0
Fails p = All (λ x. p x ≡ false)

Fails-reverse : (p : ℕ → Bool) (s : Text) → Fails p s → Fails p (reverse s)
Fails-reverse p [] h = tt
Fails-reverse p (x ∷ s) (hx, hs) =
    subst (Fails p) (sym (reverse-append (x ∷ []) s))
      (All-append (λ x. p x ≡ false) (reverse s) (x ∷ []) (Fails-reverse p s hs) (hx, tt))

drop_while_stops : (p : ℕ → Bool) (x : ℕ) (s : Text) → p x ≡ false → drop_while p (x ∷ s) ≡ x ∷ s
unfolding drop_while
drop_while_stops p x s h = rw h

drop_while_goes_on :
    (p : ℕ → Bool) (x : ℕ) (s : Text) → p x ≡ true → drop_while p (x ∷ s) ≡ drop_while p s
unfolding drop_while
drop_while_goes_on p x s h = rw h

drop_while-Fails : (p : ℕ → Bool) (s : Text) → Fails p s → drop_while p s ≡ s
drop_while-Fails p [] h = unfold drop_while in refl
drop_while-Fails p (x ∷ s) (hx, hs) = drop_while_stops p x s hx

-- A text between two bytes that the test refuses is left alone.
trim_by_framed :
    (p : ℕ → Bool) (x y : ℕ) (s w r : Text)
    → p x ≡ false
    → p y ≡ false
    → s ≡ x ∷ w
    → s ≡ r ++ y ∷ []
    → trim_by p s ≡ s
unfolding trim_by
trim_by_framed p x y s w r hx hy front back =
    ap (λ u. reverse (drop_while p (reverse u)))
      (ap (drop_while p) front ∙ drop_while_stops p x w hx ∙ sym front)
    ∙ ap (λ u. reverse (drop_while p u)) (ap reverse back ∙ reverse-append r (y ∷ []))
    ∙ ap reverse (drop_while_stops p y (reverse r) hy)
    ∙ ap reverse (sym (ap reverse back ∙ reverse-append r (y ∷ [])))
    ∙ reverse-reverse s

-- What the test accepts at both ends goes.
trim_by_ends :
    (p : ℕ → Bool) (q : ℕ) (v : Text) → p q ≡ true → Fails p v → trim_by p (q ∷ (v ++ q ∷ [])) ≡ v
unfolding trim_by
trim_by_ends p q [] hq hv = unfold drop_while in rw hq
trim_by_ends p q (x ∷ v) hq (hx, hv) =
    ap (λ u. reverse (drop_while p (reverse u)))
      (drop_while_goes_on p q (x ∷ (v ++ q ∷ [])) hq ∙ drop_while_stops p x (v ++ q ∷ []) hx)
    ∙ ap (λ u. reverse (drop_while p u)) (reverse-append (x ∷ v) (q ∷ []))
    ∙ ap reverse (
        drop_while_goes_on p q (reverse (x ∷ v)) hq
        ∙ drop_while-Fails p (reverse (x ∷ v)) (Fails-reverse p (x ∷ v) (hx, hv)))
    ∙ reverse-reverse (x ∷ v)

Lacks-Fails : (c : ℕ) (v : Text) → Lacks c v → Fails (λ x. x == c) v
Lacks-Fails c [] h = tt
Lacks-Fails c (x ∷ v) (hx, hv) = (ground arith, Lacks-Fails c v hv)

trim_quotes : (v : Text) → Lacks b'\'' v → trim (b'\'' ∷ (v ++ b'\'' ∷ [])) b'\'' ≡ v
unfolding trim
trim_quotes v h = trim_by_ends (λ x. x == b'\'') b'\'' v refl (Lacks-Fails b'\'' v h)

-- A field of a report: `LVM2_NAME='value'`.
abbrev pub render_field : Text × Text → Text
render_field (k, v) = codes "LVM2_" ++ k ++ codes "='" ++ v ++ codes "'"

-- Names and values as `lvm` prints them for volume groups, physical and logical volumes.
pub record IsField (f : Text × Text) : Type 0 where
  pub key_space : Lacks b' ' f.0
  pub key_equals : Lacks b'=' f.0
  pub value_space : Lacks b' ' f.1
  pub value_equals : Lacks b'=' f.1
  pub value_quote : Lacks b'\'' f.1

abbrev pub lowered : Text × Text → Text × Text
lowered (k, v) = (to_lower k, v)

-- the part of a field behind the equals sign
abbrev quoted : Text → Text
quoted v = b'\'' ∷ (v ++ b'\'' ∷ [])

render_field-parts : (k v : Text) → render_field (k, v) ≡ codes "LVM2_" ++ (k ++ b'=' ∷ quoted v)
render_field-parts k v = simp append_assoc

quoted-Lacks : (v : Text) (c : ℕ) → c ≢ b'\'' → Lacks c v → Lacks c (quoted v)
quoted-Lacks v c n h = (omega arith, All-append (λ x. x ≢ c) v (b'\'' ∷ []) h (omega arith))

split-render_field :
    (k v : Text)
    → Lacks b'=' k
    → Lacks b'=' v
    → split (render_field (k, v)) b'=' ≡ (codes "LVM2_" ++ k) ∷ quoted v ∷ []
split-render_field k v hk hv =
    ap (λ s. split s b'=') (render_field-parts k v)
    ∙ split-append (codes "LVM2_" ++ k) (quoted v) b'='
        (All-append (λ x. x ≢ b'=') (codes "LVM2_") k (omega arith) hk)
    ∙ ap (λ r. (codes "LVM2_" ++ k) ∷ r)
        (split-Lacks (quoted v) b'=' (quoted-Lacks v b'=' (omega arith) hv))

token_field-render :
    (f : Text × Text) → IsField f → token_field (split (render_field f) b'=') ≡ some (lowered f)
unfolding token_field drop_prefix
token_field-render (k, v) h =
    ap token_field (split-render_field k v h.key_equals h.value_equals)
    ∙ ap (λ w. some (to_lower k, w)) (trim_quotes v h.value_quote)

add_tokens_step :
    (c : ℕ) (s : Text) (ts : List Text) (m : Map Text) (f : Text × Text)
    → token_field (split (c ∷ s) b'=') ≡ some f
    → add_tokens ((c ∷ s) ∷ ts) m ≡ add_tokens ts (insert f.0 f.1 m)
unfolding add_tokens
add_tokens_step c s ts m f h = rw (h, add_tokens)

add_tokens-render :
    (fs : List (Text × Text)) (m : Map Text)
    → All IsField fs
    → add_tokens (map render_field fs) m ≡ some (assign (map lowered fs) m)
add_tokens-render [] m h = unfold add_tokens in refl
add_tokens-render ((k, v) ∷ fs) m (hf, hs) =
    add_tokens_step b'L' (codes "VM2_" ++ k ++ codes "='" ++ v ++ codes "'") (map render_field fs) m
      (lowered (k, v)) (token_field-render (k, v) hf)
    ∙ add_tokens-render fs (insert (to_lower k) v m) hs

render_field-Lacks : (f : Text × Text) → IsField f → Lacks b' ' (render_field f)
render_field-Lacks (k, v) h = subst (Lacks b' ') (sym (render_field-parts k v)) (
    All-append (λ x. x ≢ b' ') (codes "LVM2_") (k ++ b'=' ∷ quoted v) (omega arith)
      (All-append (λ x. x ≢ b' ') k (b'=' ∷ quoted v) h.key_space
        (omega arith, quoted-Lacks v b' ' (omega arith) h.value_space)))

map-render_field-Lacks :
    (fs : List (Text × Text)) → All IsField fs → All (Lacks b' ') (map render_field fs)
map-render_field-Lacks [] h = tt
map-render_field-Lacks (f ∷ fs) (hf, hs) = (render_field-Lacks f hf, map-render_field-Lacks fs hs)

-- A line of fields begins with a letter and ends with a quote.
join_front :
    (f : Text × Text) (fs : List (Text × Text))
    → (w : Text) × (join (map render_field (f ∷ fs)) b' ' ≡ b'L' ∷ w)
unfolding join
join_front (k, v) [] = (_, refl)
join_front (k, v) (g ∷ fs) = (_, refl)

join_back :
    (f : Text × Text) (fs : List (Text × Text))
    → (r : Text) × (join (map render_field (f ∷ fs)) b' ' ≡ r ++ b'\'' ∷ [])
unfolding join
join_back (k, v) [] = (codes "LVM2_" ++ k ++ codes "='" ++ v, refl)
join_back f (g ∷ fs) =
    let (r, e) = join_back g fs in
    (
      render_field f ++ b' ' ∷ r,
      ap (λ u. render_field f ++ b' ' ∷ u) e
          ∙ sym (append_assoc (render_field f) (b' ' ∷ r) (b'\'' ∷ [])),
    )

abbrev pub indent : ℕ → Text → Text
indent zero s = s
indent (suc n) s = b' ' ∷ indent n s

drop_while-indent : (n : ℕ) (s : Text) → drop_while is_space (indent n s) ≡ drop_while is_space s
drop_while-indent zero s = refl
drop_while-indent (suc n) s =
    drop_while_goes_on is_space b' ' (indent n s) refl ∙ drop_while-indent n s

trim_space-line :
    (n : ℕ) (f : Text × Text) (fs : List (Text × Text))
    → trim_space (indent n (join (map render_field (f ∷ fs)) b' '))
      ≡ join (map render_field (f ∷ fs)) b' '
unfolding trim_space trim_by
trim_space-line n f fs =
    let (w, front) = join_front f fs in
    let (r, back) = join_back f fs in
    ap (λ u. reverse (drop_while is_space (reverse u)))
      (drop_while-indent n (join (map render_field (f ∷ fs)) b' '))
    ∙ trim_by_framed is_space b'L' b'\'' (join (map render_field (f ∷ fs)) b' ') w r refl refl front
        back

-- A line of one or more fields, indented at will, is read without a panic: each name in lower case
-- has the value of the last field of that name, without its quotes, and there is nothing else.
pub parse_one_line-render :
    (n : ℕ) (f : Text × Text) (fs : List (Text × Text))
    → All IsField (f ∷ fs)
    → (m : Map Text) × (parse_one_line (indent n (join (map render_field (f ∷ fs)) b' ')) ≡ some m)
      × ((k : Text) → lookup k m ≡ latest k (map lowered (f ∷ fs)))
unfolding parse_one_line
parse_one_line-render n f fs h = (
  assign (map lowered (f ∷ fs)) [],
  ap (λ s. add_tokens (split s b' ') []) (trim_space-line n f fs)
      ∙ ap (λ ts. add_tokens ts [])
          (split-join (map render_field (f ∷ fs)) b' ' (λ e. cc)
            (map-render_field-Lacks (f ∷ fs) h))
      ∙ add_tokens-render (f ∷ fs) [] h,
  λ k. lookup-assign-nil k (map lowered (f ∷ fs)),
)
