-- ===== src/Simulator/Once.antt =====
-- What a simulated device remembers: no command runs twice within 128 commands.
use mathlib.Core.Path.{subst}
use secure_io_t_device_platf.Base.{
  ℕ, suc, ◌≤◌, ◌<◌, ◌≡◌, refl, ◌∙◌, ap, arith, String, true, false, not, ◌||◌, List, [], ◌∷◌, ◌++◌,
  length, length-append, eqb, ◌==◌, eq_iff, eq_refl, Bool-cases, inl, inr,
}
use secure_io_t_device_platf.Table.{select}
use secure_io_t_device_platf.Simulator.Recent.{Recent, has, forget_oldest, note, remember_command}

abbrev pub Distinct : List String → Type 0
Distinct [] = Unit
Distinct (id ∷ ids) = (has ids id ≡ false) × Distinct ids

-- The set holds the ids of the deque, each once and at most 128 of them.
pub record Tidy (r : Recent) : Type 0 where
  pub same : r.command_set ≡ r.command_ids
  pub distinct : Distinct r.command_ids
  pub bounded : length r.command_ids ≤ 128

has-append : (ids : List String) (a b : String) → has (ids ++ a ∷ []) b ≡ (has ids b || a == b)
unfolding has
has-append [] a b = ground arith
has-append (i ∷ ids) a b = ground (arith, has-append ids a b)

Distinct-append :
    (ids : List String) (a : String) → Distinct ids → has ids a ≡ false → Distinct (ids ++ a ∷ [])
unfolding has
Distinct-append [] a h k = (refl, tt)
Distinct-append (i ∷ ids) a h k = (
  ground (arith, has-append ids a i, h.0, eq_iff i a, eq_iff a i),
  Distinct-append ids a h.1 (ground arith),
)

select_absent :
    (ids : List String) (a : String) → has ids a ≡ false → select (λ id. not (id == a)) ids ≡ ids
unfolding has select
select_absent [] a h = refl
select_absent (i ∷ ids) a h = ground (arith, select_absent ids a)

dropped :
    (a : String) (ids : List String)
    → has ids a ≡ false
    → select (λ id. not (id == a)) (a ∷ ids) ≡ ids
unfolding select
dropped a ids h = ground (arith, eq_refl a, select_absent ids a h)

-- Forgetting keeps the two views alike, and makes room.
forget-Tidy :
    (ids set : List String)
    → Tidy (record { command_ids = ids; command_set = set })
    → Tidy (forget_oldest (record { command_ids = ids; command_set = set }))
unfolding forget_oldest
forget-Tidy [] set t = t
forget-Tidy (oldest ∷ ids) set t = record {
  same = ap (select (λ id. not (id == oldest))) t.same ∙ dropped oldest ids t.distinct.0;
  distinct = t.distinct.1;
  bounded = omega (arith, t.bounded);
}

forget_absent :
    (ids set : List String) (id : String)
    → has ids id ≡ false
    → has (forget_oldest (record { command_ids = ids; command_set = set })).command_ids id ≡ false
unfolding forget_oldest has
forget_absent [] set id h = h
forget_absent (oldest ∷ ids) set id h = ground arith

forget_room :
    (ids set : List String)
    → length ids ≤ 128
    → length (forget_oldest (record { command_ids = ids; command_set = set })).command_ids < 128
unfolding forget_oldest
forget_room [] set h = omega arith
forget_room (oldest ∷ ids) set h = omega (arith, h)

note-Tidy :
    (id : String) (r : Recent)
    → Tidy r
    → has r.command_ids id ≡ false
    → length r.command_ids < 128
    → Tidy (note id r)
unfolding note
note-Tidy id r t absent room = record {
  same = ap (λ ids. ids ++ id ∷ []) t.same;
  distinct = Distinct-append r.command_ids id t.distinct absent;
  bounded = omega (arith, length-append r.command_ids (id ∷ []), room);
}

-- Remembering a command, with the cases that `remember_command` tells apart.
pub remember-Tidy : (id : String) (r : Recent) → Tidy r → Tidy (remember_command id r).1
unfolding remember_command
remember-Tidy id r t = elim (Bool-cases (has r.command_set id)) [
  | inl e ↦ rw (e, remember_command) t
  | inr e ↦
      let absent : has r.command_ids id ≡ false = subst (λ ids. has ids id ≡ false) t.same e in
      elim (Bool-cases (eqb (length r.command_ids) 128)) [
        | inl full ↦
            rw (e, remember_command, full)
              (note-Tidy id (forget_oldest r) (forget-Tidy r.command_ids r.command_set t)
                (forget_absent r.command_ids r.command_set id absent)
                (forget_room r.command_ids r.command_set t.bounded))
        | inr free ↦
            rw (e, remember_command, free) (note-Tidy id r t absent (ground (arith, t.bounded)))
      ]
]

-- The id stands in the deque with at most `k` others behind it.
pub record Recently (k : ℕ) (id : String) (ids : List String) : Type 0 where
  pub before : List String
  pub after : List String
  pub stands : ids ≡ before ++ id ∷ after
  pub near : length after ≤ k

has-middle : (id : String) (before after : List String) → has (before ++ id ∷ after) id ≡ true
unfolding has
has-middle id [] after = ground (arith, eq_refl id)
has-middle id (b ∷ before) after = ground (arith, has-middle id before after)

Recently-has : {k : ℕ} {id : String} {ids : List String} → Recently k id ids → has ids id ≡ true
Recently-has {k} {id} {ids} h = ap (λ l. has l id) h.stands ∙ has-middle id h.before h.after

append_behind :
    (before after : List String) (id a : String)
    → (before ++ id ∷ after) ++ a ∷ [] ≡ before ++ id ∷ (after ++ a ∷ [])
append_behind [] after id a = refl
append_behind (b ∷ before) after id a = ap (λ l. b ∷ l) (append_behind before after id a)

append-Recently :
    (k : ℕ) (id a : String) (ids : List String)
    → Recently k id ids
    → Recently (suc k) id (ids ++ a ∷ [])
append-Recently k id a ids h = record {
  before = h.before;
  after = h.after ++ a ∷ [];
  stands = ap (λ l. l ++ a ∷ []) h.stands ∙ append_behind h.before h.after id a;
  near = omega (arith, length-append h.after (a ∷ []), h.near);
}

pub further :
    (k : ℕ) (id : String) (ids : List String) → Recently k id ids → Recently (suc k) id ids
further k id ids h = record {
  before = h.before;
  after = h.after;
  stands = h.stands;
  near = omega (arith, h.near);
}

abbrev rest_of : List String → List String
rest_of [] = []
rest_of (id ∷ ids) = ids

-- A full deque forgets an older command first.
tail-Recently :
    (k : ℕ) (id oldest : String) (ids before after : List String)
    → oldest ∷ ids ≡ before ++ id ∷ after
    → length after ≤ k
    → k < length ids
    → Recently k id ids
tail-Recently k id oldest ids [] after stands near more =
    let same : ids ≡ after = ap rest_of stands in
    let short : length ids ≡ length after = ap length same in
    absurd (omega (arith, short, near, more))
tail-Recently k id oldest ids (b ∷ before) after stands near more = record {
  before = before;
  after = after;
  stands = ap rest_of stands;
  near = near;
}

forget-Recently :
    (k : ℕ) (id : String) (ids set : List String)
    → Recently k id ids
    → length ids ≡ 128
    → k < 127
    → Recently k id (forget_oldest (record { command_ids = ids; command_set = set })).command_ids
unfolding forget_oldest
forget-Recently k id [] set h full room = absurd (omega (arith, full))
forget-Recently k id (oldest ∷ ids) set h full room =
    tail-Recently k id oldest ids h.before h.after h.stands h.near (omega (arith, full, room))

-- One more command leaves it at most one place further from the end.
pub remember-Recently :
    (k : ℕ) (id a : String) (r : Recent)
    → k < 127
    → Recently k id r.command_ids
    → Recently (suc k) id (remember_command a r).1.command_ids
unfolding remember_command note
remember-Recently k id a r room h = elim (Bool-cases (has r.command_set a)) [
  | inl e ↦ rw (e, remember_command) (further k id r.command_ids h)
  | inr e ↦ elim (Bool-cases (eqb (length r.command_ids) 128)) [
    | inl full ↦
        rw (e, remember_command, full)
          (append-Recently k id a (forget_oldest r).command_ids
            (forget-Recently k id r.command_ids r.command_set h (ground arith) room))
    | inr free ↦ rw (e, remember_command, free) (append-Recently k id a r.command_ids h)
  ]
]

-- A command that is accepted stands last.
pub accepted-Recently :
    (id : String) (r : Recent)
    → has r.command_set id ≡ false
    → (remember_command id r).0 ≡ true × Recently 0 id (remember_command id r).1.command_ids
unfolding remember_command note
accepted-Recently id r e = elim (Bool-cases (eqb (length r.command_ids) 128)) [
  | inl full ↦
      rw (e, remember_command, full)
        (
          refl,
          record {
            before = (forget_oldest r).command_ids;
            after = [];
            stands = refl;
            near = omega arith;
          },
        )
  | inr free ↦
      rw (e, remember_command, free)
        (refl, record { before = r.command_ids; after = []; stands = refl; near = omega arith })
]

-- A remembered command is refused, and nothing changes.
pub remember_again :
    (k : ℕ) (id : String) (r : Recent)
    → Tidy r
    → Recently k id r.command_ids
    → remember_command id r ≡ (false, r)
unfolding remember_command
remember_again k id r t h =
    let held : has r.command_set id ≡ true = ap (λ ids. has ids id) t.same ∙ Recently-has h in
    rw (held, remember_command) refl
