-- ===== src/EnvFile/Written.antt =====
-- A line that is written for an entry is read as this entry.
use Prim.Native.Char.{Char, code}
use Prim.Native.String.{[], ◌∷◌, ◌++◌}
use Prim.Native.String.append
use secure_io_t_device_platf.Base.{
  String, ◌≡◌, refl, ◌∙◌, ap, arith, Bool, true, false, not, none, some,
}
use secure_io_t_device_platf.Base.Text.{is_empty, is_space, strip, lstrip, rstrip}
use secure_io_t_device_platf.EnvFile.{Entry, assignment, written}
use secure_io_t_device_platf.EnvFile.Text.{no_break, is_break}
use secure_io_t_device_platf.EnvFile.Line.{split_eq, starts_with_hash, unquoted, joined}

-- No blank at the start.
abbrev pub starts_plain : String → Bool
starts_plain [] = true
starts_plain (c ∷ s) = not (is_space (code c))

-- A key without "=", "#" in front and blanks around, and a value without blanks or quotes around. No
-- line ends inside of either.
pub record IsPlain (e : Entry) : Type 0 where
  pub key_start : starts_plain e.key ≡ true
  pub key_end : rstrip e.key ≡ e.key
  pub no_equals : split_eq e.key ≡ none
  pub no_hash : starts_with_hash e.key ≡ false
  pub value_start : starts_plain e.value ≡ true
  pub value_end : rstrip e.value ≡ e.value
  pub not_quoted : unquoted e.value ≡ e.value
  pub key_whole : no_break e.key ≡ true
  pub value_whole : no_break e.value ≡ true

strip-plain : (s : String) → starts_plain s ≡ true → rstrip s ≡ s → strip s ≡ s
unfolding strip lstrip
strip-plain [] h k = k
strip-plain (c ∷ s) h k = ground arith

joined-nil : (v : String) → joined [] v ≡ "=" ++ v
unfolding joined
joined-nil v = append.nil _

joined-cons : (c : Char) (k v : String) → joined (c ∷ k) v ≡ c ∷ joined k v
unfolding joined
joined-cons c k v = append.cons c k _

equals-cons : (v : String) → "=" ++ v ≡ "=" ∷ v
equals-cons v = append.cons _ _ _ ∙ ap (λ s. "=" ∷ s) (append.nil v)

split_eq-joined : (k v : String) → split_eq k ≡ none → split_eq (joined k v) ≡ some (k, v)
unfolding split_eq
split_eq-joined [] v h = rw (joined-nil, equals-cons) refl
split_eq-joined (c ∷ k) v h = rw joined-cons (ground (arith, split_eq-joined k v))

joined-not_empty : (k v : String) → is_empty (joined k v) ≡ false
joined-not_empty [] v = rw (joined-nil, equals-cons) refl
joined-not_empty (c ∷ k) v = rw joined-cons refl

rstrip-joined : (k v : String) → rstrip (joined k v) ≡ joined k (rstrip v)
unfolding rstrip is_space
rstrip-joined [] v =
    rw (joined-nil v, joined-nil (rstrip v), equals-cons v, equals-cons (rstrip v)) refl
rstrip-joined (c ∷ k) v =
    simp (joined-cons) (ground (arith, rstrip-joined k v, joined-not_empty k (rstrip v)))

lstrip-joined : (k v : String) → starts_plain k ≡ true → lstrip (joined k v) ≡ joined k v
unfolding lstrip
lstrip-joined [] v h = simp (joined-nil, equals-cons) (unfold is_space in refl)
lstrip-joined (c ∷ k) v h = simp (joined-cons) (ground arith)

hash-joined : (k v : String) → starts_with_hash (joined k v) ≡ starts_with_hash k
hash-joined [] v = rw (joined-nil, equals-cons) refl
hash-joined (c ∷ k) v = rw joined-cons refl

pub assignment-written : (e : Entry) → IsPlain e → assignment (written e) ≡ some e
unfolding assignment written
assignment-written e h =
    let stripped : strip (joined e.key e.value) ≡ joined e.key e.value =
      unfold strip in
      ap rstrip (lstrip-joined e.key e.value h.key_start)
      ∙ rstrip-joined e.key e.value
      ∙ ap (joined e.key) h.value_end in
    simp
      (
        stripped,
        joined-not_empty e.key e.value,
        hash-joined e.key e.value,
        h.no_hash,
        split_eq-joined e.key e.value h.no_equals,
        strip-plain e.key h.key_start h.key_end,
        strip-plain e.value h.value_start h.value_end,
        h.not_quoted,
      )
      refl

no_break-joined :
    (k v : String) → no_break k ≡ true → no_break v ≡ true → no_break (joined k v) ≡ true
unfolding is_break
no_break-joined [] v h k = rw (joined-nil, equals-cons) k
no_break-joined (c ∷ s) v h k = rw joined-cons (ground (arith, no_break-joined s v))

pub no_break-written : (e : Entry) → IsPlain e → no_break (written e) ≡ true
unfolding written
no_break-written e h = no_break-joined e.key e.value h.key_whole h.value_whole
