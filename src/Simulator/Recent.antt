-- ===== src/Simulator/Recent.antt =====
-- The commands that a simulated device remembers: `recent_command_ids`, a deque of at most 128, and
-- `recent_command_set`.
use secure_io_t_device_platf.Base.{
  ℕ, String, Bool, true, false, not, ◌||◌, List, [], ◌∷◌, ◌++◌, length, eqb, ◌==◌, if◌then◌else◌,
}
use secure_io_t_device_platf.Table.{select}

pub record Recent : Type 0 where
  pub command_ids : List String
  pub command_set : List String

-- command_id in self.recent_command_set
unfoldable pub has : List String → String → Bool
has [] id = false
has (i ∷ ids) id = i == id || has ids id

abbrev pub max_commands : ℕ
max_commands = 128

-- popleft, with the element that goes discarded from the set
unfoldable pub forget_oldest : Recent → Recent
forget_oldest r = elim r.command_ids [
  | [] ↦ r
  | oldest ∷ ids ↦ record {
    command_ids = ids;
    command_set = select (λ id. not (id == oldest)) r.command_set;
  }
]

-- append and add
unfoldable pub note : String → Recent → Recent
note command_id r = record {
  command_ids = r.command_ids ++ command_id ∷ [];
  command_set = r.command_set ++ command_id ∷ [];
}

-- The Boolean is false for a command that is remembered already.
unfoldable pub remember_command : String → Recent → Bool × Recent
remember_command command_id r =
    if has r.command_set command_id
    then (false, r)
    else if eqb (length r.command_ids) max_commands
    then (true, note command_id (forget_oldest r))
    else (true, note command_id r)
