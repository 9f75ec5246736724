-- ===== src/EnvFile/Lines.antt =====
-- The lines that are read from a written text are the lines that were joined.
use Prim.Native.Char.{Char, code}
use Prim.Native.String.{[], ◌∷◌, ◌++◌}
use Prim.Native.String.append
use text.Mathlib.TextLemmas.{append_assoc}
use secure_io_t_device_platf.Base.{
  ℕ, String, ◌≡◌, refl, ◌∙◌, ap, sym, arith, true, false, ◌&&◌, List, Bool-cases, eqb, inl, inr,
  All, ◌⊎◌, if◌then◌else◌,
}
use secure_io_t_device_platf.Base.Text.{is_empty, is_space, rstrip}
use secure_io_t_device_platf.EnvFile.Text.{
  is_break, push, starts_with_line_feed, splitlines, joined_lines, no_break,
}
use secure_io_t_device_platf.EnvFile.Strip.{is_empty→eq}

-- No line of a list has a line end in it.
abbrev pub Whole : String → Type 0
Whole l = no_break l ≡ true

-- A line before stripped lines.
unfoldable pub put_line : String → List String → List String
put_line l List.[] = if is_empty (rstrip l) then List.[] else List.◌∷◌ (rstrip l) List.[]
put_line l (List.◌∷◌ m rest) = List.◌∷◌ l (List.◌∷◌ m rest)

-- The lines of a text that is stripped at its end.
unfoldable pub rstrip_lines : List String → List String
rstrip_lines List.[] = List.[]
rstrip_lines (List.◌∷◌ l lines) = put_line l (rstrip_lines lines)

line_feed-cons : (s : String) → "\n" ++ s ≡ "\n" ∷ s
line_feed-cons s = append.cons _ _ _ ∙ ap (λ t. "\n" ∷ t) (append.nil s)

rstrip-append_blank : (a b : String) → rstrip b ≡ [] → rstrip (a ++ b) ≡ rstrip a
unfolding rstrip
rstrip-append_blank [] b h = rw (append.nil b) h
rstrip-append_blank (c ∷ a) b h = rw (append.cons c a b) (ground (arith, rstrip-append_blank a b h))

append-not_empty : (a b : String) → is_empty b ≡ false → is_empty (a ++ b) ≡ false
append-not_empty [] b h = rw (append.nil b) h
append-not_empty (c ∷ a) b h = rw (append.cons c a b) refl

rstrip-append : (a b : String) → is_empty (rstrip b) ≡ false → rstrip (a ++ b) ≡ a ++ rstrip b
unfolding rstrip
rstrip-append [] b h = rw (append.nil b, append.nil (rstrip b)) refl
rstrip-append (c ∷ a) b h =
    rw (append.cons c a b, append.cons c a (rstrip b))
      (ground (arith, rstrip-append a b h, append-not_empty a (rstrip b) h))

line_feed_blank : (s : String) → rstrip s ≡ [] → rstrip ("\n" ∷ s) ≡ []
unfolding rstrip is_space
line_feed_blank s h = rw h refl

line_feed_visible : (s : String) → is_empty (rstrip s) ≡ false → rstrip ("\n" ∷ s) ≡ "\n" ∷ rstrip s
unfolding rstrip is_space
line_feed_visible s h = rw h refl

-- A line before other ones that are blank, or not.
joined-blank : (l s : String) → rstrip s ≡ [] → rstrip (l ++ "\n" ++ s) ≡ rstrip l
joined-blank l s h = rw (line_feed-cons s) (rstrip-append_blank l ("\n" ∷ s) (line_feed_blank s h))

joined-visible :
    (l s : String) → is_empty (rstrip s) ≡ false → rstrip (l ++ "\n" ++ s) ≡ l ++ "\n" ++ rstrip s
joined-visible l s h =
    rw (line_feed-cons s, line_feed-cons (rstrip s))
      (rstrip-append l ("\n" ∷ s) (ap is_empty (line_feed_visible s h))
        ∙ ap (λ x. l ++ x) (line_feed_visible s h))

put_line-joined : (l : String) → joined_lines (put_line l List.[]) ≡ rstrip l
unfolding put_line joined_lines
put_line-joined l = elim (Bool-cases (is_empty (rstrip l))) [
  | inl e ↦ rw (e, put_line) (sym (is_empty→eq (rstrip l) e))
  | inr e ↦ rw (e, put_line) refl
]

line-not_empty : (l s : String) → is_empty (l ++ "\n" ++ s) ≡ false
line-not_empty l s = append-not_empty l ("\n" ++ s) (rw (line_feed-cons s) refl)

-- Either no line is left, or the last one left says something.
rstrip_lines-cases :
    (lines : List String)
    → (rstrip_lines lines ≡ List.[]) ⊎ (is_empty (joined_lines (rstrip_lines lines)) ≡ false)
unfolding rstrip_lines put_line joined_lines
rstrip_lines-cases List.[] = inl refl
rstrip_lines-cases (List.◌∷◌ l lines) = with_line (rstrip_lines lines)
  where
    with_line :
        (rest : List String)
        → (put_line l rest ≡ List.[]) ⊎ (is_empty (joined_lines (put_line l rest)) ≡ false)
    with_line List.[] = elim (Bool-cases (is_empty (rstrip l))) [
      | inl e ↦ inl (rw (e, put_line) refl)
      | inr e ↦ inr (rw (e, put_line) e)
    ]
    with_line (List.◌∷◌ m rest) = inr (line-not_empty l (joined_lines (List.◌∷◌ m rest)))

put_line-more :
    (l : String) (rest : List String)
    → is_empty (joined_lines rest) ≡ false
    → joined_lines (put_line l rest) ≡ l ++ "\n" ++ joined_lines rest
unfolding put_line joined_lines
put_line-more l List.[] h = absurd (ground arith)
put_line-more l (List.◌∷◌ m rest) h = refl

pub rstrip-joined_lines :
    (lines : List String) → rstrip (joined_lines lines) ≡ joined_lines (rstrip_lines lines)
unfolding joined_lines rstrip_lines
rstrip-joined_lines List.[] = unfold rstrip in refl
rstrip-joined_lines (List.◌∷◌ l List.[]) = sym (put_line-joined l)
rstrip-joined_lines (List.◌∷◌ l (List.◌∷◌ m lines)) =
    let text = joined_lines (List.◌∷◌ m lines) in
    let ih = rstrip-joined_lines (List.◌∷◌ m lines) in
    elim (rstrip_lines-cases (List.◌∷◌ m lines)) [
      | inl e ↦
          joined-blank l text (ih ∙ ap joined_lines e)
          ∙ sym (put_line-joined l)
          ∙ ap (λ r. joined_lines (put_line l r)) (sym e)
      | inr e ↦
          joined-visible l text (ap is_empty ih ∙ e)
          ∙ ap (λ x. l ++ "\n" ++ x) ih
          ∙ sym (put_line-more l (rstrip_lines (List.◌∷◌ m lines)) e)
    ]

no_return : (n : ℕ) → is_break n ≡ false → eqb n 13 ≡ false
unfolding is_break
no_return n h = ground arith

-- A line that ends is read as itself.
splitlines-line : (l s : String) → Whole l → splitlines (l ++ "\n" ∷ s) ≡ List.◌∷◌ l (splitlines s)
unfolding splitlines push is_break
splitlines-line [] s h = rw (append.nil ("\n" ∷ s)) refl
splitlines-line (c ∷ l) s h =
    let whole : is_break (code c) ≡ false = ground arith in
    let rest = splitlines-line l s (ground (arith)) in
    rw (append.cons c l ("\n" ∷ s), no_return (code c) whole, whole, rest) refl

-- The lines of a text: where there are none, one empty line is read.
pub splitlines-joined :
    (l : String) (lines : List String)
    → Whole l
    → All Whole lines
    → splitlines (joined_lines (List.◌∷◌ l lines) ++ "\n") ≡ List.◌∷◌ l lines
unfolding joined_lines
splitlines-joined l List.[] h k = splitlines-line l "" h ∙ (unfold splitlines in refl)
splitlines-joined l (List.◌∷◌ m lines) h k =
    let text = joined_lines (List.◌∷◌ m lines) in
    let moved : (l ++ "\n" ++ text) ++ "\n" ≡ l ++ "\n" ∷ (text ++ "\n") =
      append_assoc l ("\n" ++ text) "\n"
      ∙ ap (λ x. l ++ x ++ "\n") (line_feed-cons text)
      ∙ ap (λ x. l ++ x) (append.cons "\n" text "\n") in
    ap splitlines moved
    ∙ splitlines-line l (text ++ "\n") h
    ∙ ap (λ rest. List.◌∷◌ l rest) (splitlines-joined m lines k.0 k.1)

push-Whole :
    (c : Char) (lines : List String)
    → is_break (code c) ≡ false
    → All Whole lines
    → All Whole (push c lines)
unfolding push
push-Whole c List.[] h k = (rw h refl, tt)
push-Whole c (List.◌∷◌ l lines) h k = (rw h k.0, k.1)

-- The lines that are read hold no line end.
pub splitlines-Whole : (s : String) → All Whole (splitlines s)
unfolding splitlines
splitlines-Whole [] = tt
splitlines-Whole (c ∷ s) = elim (Bool-cases (eqb (code c) 13 && starts_with_line_feed s)) [
  | inl e ↦ rw (e, splitlines) (splitlines-Whole s)
  | inr e ↦ elim (Bool-cases (is_break (code c))) [
    | inl k ↦ rw (e, k, splitlines) (refl, splitlines-Whole s)
    | inr k ↦ rw (e, k, splitlines) (push-Whole c (splitlines s) k (splitlines-Whole s))
  ]
]

rstrip-Whole : (s : String) → Whole s → Whole (rstrip s)
unfolding rstrip
rstrip-Whole [] h = refl
rstrip-Whole (c ∷ s) h = ground (arith, rstrip-Whole s)

put_line-Whole :
    (l : String) (lines : List String) → Whole l → All Whole lines → All Whole (put_line l lines)
unfolding put_line
put_line-Whole l (List.◌∷◌ m rest) h k = (h, k)
put_line-Whole l List.[] h k = elim (Bool-cases (is_empty (rstrip l))) [
  | inl e ↦ rw (e, put_line) tt
  | inr e ↦ rw (e, put_line) (rstrip-Whole l h, tt)
]

pub rstrip_lines-Whole : (lines : List String) → All Whole lines → All Whole (rstrip_lines lines)
unfolding rstrip_lines
rstrip_lines-Whole List.[] h = tt
rstrip_lines-Whole (List.◌∷◌ l lines) h =
    put_line-Whole l (rstrip_lines lines) h.0 (rstrip_lines-Whole lines h.1)
