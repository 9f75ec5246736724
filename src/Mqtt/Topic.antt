-- ===== src/Mqtt/Topic.antt =====
-- Topics: `topic.split("/")`, and the topics that the server gives to a device.
use Prim.Native.Char.{Char, code}
use Prim.Native.String.{[], ◌∷◌, ◌++◌}
use mathlib.Core.List.{List}
use secure_io_t_device_platf.Base.{String, eqb, if◌then◌else◌}

-- The first part takes one more character in front.
unfoldable pub push_char : Char → List String → List String
push_char c List.[] = List.◌∷◌ (c ∷ []) List.[]
push_char c (List.◌∷◌ part parts) = List.◌∷◌ (c ∷ part) parts

unfoldable pub split : String → List String
unfolding push_char
split [] = List.◌∷◌ [] List.[]
split (c ∷ s) =
    let parts = split s in if eqb (code c) b'/' then List.◌∷◌ [] parts else push_char c parts

-- f"devices/{device_id}/{kind}"
unfoldable pub device_topic : String → String → String
device_topic device_id kind = "devices/" ++ (device_id ++ ("/" ++ kind))
