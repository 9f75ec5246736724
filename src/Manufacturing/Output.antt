-- ===== src/Manufacturing/Output.antt =====
-- scripts/manufacturing_agent.py: how a line of the programming job's output is redacted and read.
-- Lines are code points; case is ignored in ASCII only.
use secure_io_t_device_platf.Base.{
  ℕ, zero, suc, ◌+◌, ◌-◌, String, Bool, not, ◌&&◌, ◌||◌, Option, none, some, List, [], ◌∷◌, ◌++◌,
  map, length, eqb, if◌then◌else◌,
}
use secure_io_t_device_platf.Base.Text.{codes, is_space, lower_code, contains}

-- A regular expression's literal part, with IGNORECASE: what it matches, and the rest.
unfoldable pub literal : List ℕ → List ℕ → Option (List ℕ × List ℕ)
literal [] cs = some ([], cs)
literal (p ∷ ps) [] = none
literal (p ∷ ps) (c ∷ cs) =
    let rest = literal ps cs in
    if eqb (lower_code p) (lower_code c)
    then elim rest [ none ↦ none | some (eaten, left) ↦ some (c ∷ eaten, left) ]
    else none

-- The longest run of characters of a class, and the rest.
unfoldable pub run_of : (ℕ → Bool) → List ℕ → List ℕ × List ℕ
run_of p [] = ([], [])
run_of p (c ∷ cs) =
    let (eaten, left) = run_of p cs in if p c then (c ∷ eaten, left) else ([], c ∷ cs)

-- One or more characters of a class.
unfoldable pub some_of : (ℕ → Bool) → List ℕ → Option (List ℕ × List ℕ)
some_of p [] = none
some_of p (c ∷ cs) = if p c then some (run_of p (c ∷ cs)) else none

abbrev pub redacted : List ℕ
redacted = codes "[REDACTED]"

-- A match at the start: the text that replaces it, and how many characters it takes.
abbrev pub Match : Type 0
Match = List ℕ → Option (List ℕ × ℕ)

-- ("bootstrap_secret"\s*:\s*")[^"]+(")
unfoldable pub json_secret : Match
json_secret cs = elim (literal (codes "\"bootstrap_secret\"") cs) [
  | none ↦ none
  | some (name, after_name) ↦
      let (blanks, after_blanks) = run_of is_space after_name in
      elim (literal (codes ":") after_blanks) [
        | none ↦ none
        | some (colon, after_colon) ↦
            let (more, after_more) = run_of is_space after_colon in
            elim (literal (codes "\"") after_more) [
              | none ↦ none
              | some (quote, after_quote) ↦ elim (some_of (λ c. not (eqb c 34)) after_quote) [
                | none ↦ none
                | some (value, after_value) ↦ elim (literal (codes "\"") after_value) [
                  | none ↦ none
                  | some (last, left) ↦
                      let kept = name ++ blanks ++ colon ++ more ++ quote in
                      some (kept ++ redacted ++ last, length kept + length value + length last)
                ]
              ]
            ]
      ]
]

-- (name\s*=\s*)[^\s]+
unfoldable pub assignment : String → Match
assignment name cs = elim (literal (codes name) cs) [
  | none ↦ none
  | some (key, after_key) ↦
      let (blanks, after_blanks) = run_of is_space after_key in
      elim (literal (codes "=") after_blanks) [
        | none ↦ none
        | some (sign, after_sign) ↦
            let (more, after_more) = run_of is_space after_sign in
            elim (some_of (λ c. not (is_space c)) after_more) [
              | none ↦ none
              | some (value, left) ↦
                  let kept = key ++ blanks ++ sign ++ more in
                  some (kept ++ redacted, length kept + length value)
            ]
      ]
]

-- re.sub, with `skip` characters of the last match still to drop
unfoldable pub substitute : Match → ℕ → List ℕ → List ℕ
substitute m skip [] = []
substitute m (suc skip) (c ∷ cs) = substitute m skip cs
substitute m zero (c ∷ cs) = elim (m (c ∷ cs)) [
  | none ↦ c ∷ substitute m zero cs
  | some (replacement, taken) ↦ replacement ++ substitute m (taken - 1) cs
]

unfoldable pub sanitize_output : List ℕ → List ℕ
sanitize_output text = substitute (assignment "DASHBOARD_PASSWORD") 0 (
    substitute (assignment "MANUFACTURING_AGENT_TOKEN") 0
      (substitute (assignment "bootstrap_secret") 0 (substitute json_secret 0 text)))

pub data Stage : Type 0 where
  queued dependencies configuration erase build upload factory_ready registration identity bootstrap
        certificate mqtt complete failed :
      Stage

-- STAGES
unfoldable pub stage_label : Stage → String
stage_label queued = "Queued"
stage_label dependencies = "Checking dependencies"
stage_label configuration = "Preparing selected firmware"
stage_label erase = "Erasing ESP32 flash"
stage_label build = "Building selected firmware"
stage_label upload = "Uploading firmware"
stage_label factory_ready = "Waiting for FACTORY_READY"
stage_label registration = "Registering device"
stage_label identity = "Writing bootstrap identity to NVS"
stage_label bootstrap = "HMAC bootstrap and CSR enrollment"
stage_label certificate = "Issuing X.509 certificate"
stage_label mqtt = "Connecting MQTT/mTLS"
stage_label complete = "Device ready"
stage_label failed = "Programming failed"

unfoldable pub stage_progress : Stage → ℕ
stage_progress queued = 0
stage_progress dependencies = 8
stage_progress configuration = 15
stage_progress erase = 25
stage_progress build = 42
stage_progress upload = 58
stage_progress factory_ready = 68
stage_progress registration = 75
stage_progress identity = 82
stage_progress bootstrap = 90
stage_progress certificate = 95
stage_progress mqtt = 98
stage_progress complete = 100
stage_progress failed = 100

-- The first group of texts of which the line holds one decides.
unfoldable pub stage_from_line : List ℕ → Stage → Stage
stage_from_line line current =
    let lowered = map lower_code line in
    if contains (codes "[dependency]") lowered
      || contains (codes "library manager:") lowered
      || contains (codes "tool manager:") lowered
      || contains (codes "installing") lowered
      || contains (codes "downloading") lowered
      || contains (codes "unpacking") lowered
    then dependencies
    else if contains (codes "[config]") lowered
        || contains (codes "[build] synchronized public ca") lowered
        || contains (codes "public ca prepared temporarily") lowered
    then configuration
    else if contains (codes "erasing esp32 flash") lowered
    then erase
    else if contains (codes "building selected firmware") lowered
        || contains (codes "building complete firmware") lowered
        || contains (codes "compiling") lowered
        || contains (codes "linking") lowered
    then build
    else if contains (codes "uploading firmware") lowered || contains (codes "writing at") lowered
    then upload
    else if contains (codes "waiting for factory_ready") lowered
        || contains (codes "factory_ready") lowered
    then factory_ready
    else if contains (codes "registering physical device") lowered
        || contains (codes "device registered:") lowered
        || contains (codes "bootstrap secret rotated") lowered
    then registration
    else if contains (codes "injecting bootstrap identity") lowered
        || contains (codes "transferring the initial identity") lowered
        || contains (codes "identity stored") lowered
    then identity
    else if contains (codes "hmac") lowered
        || contains (codes "bootstrap challenge") lowered
        || contains (codes "csr") lowered
    then bootstrap
    else if contains (codes "x.509") lowered
        || contains (codes "certificate issued") lowered
        || contains (codes "certificate stored") lowered
    then certificate
    else if contains (codes "mqtt/mtls") lowered
        || contains (codes "mqtt connected") lowered
        || (contains (codes "mqtt") lowered && contains (codes "connected") lowered)
    then mqtt
    else if contains (codes "device ready") lowered
    then complete
    else current
