-- ===== src/Protocol/MimeType/Parameters.antt =====
-- `parse_header_parameters` and the class `mime_type` of src/protocol/http_mime_type.cpp. A
-- `std::map` of strings is the list of its entries in the order of their keys.
mod Runs
use libnhttp.Base.{
  ℕ, zero, suc, ◌+◌, List, [], ◌∷◌, ◌++◌, Bytes, leb, ◌==◌, Bool, true, false, not, ◌&&◌, Option,
  some, none, length, take, drop, get_or, ◌-◌, if◌then◌else◌, codes,
}
use libnhttp.Base.Text.{bytes_eq, bytes_lt}
use libnhttp.Protocol.HttpHeader.{cut, trim_front, trim_back}

pub record Parameter : Type 0 where
  pub key : Bytes
  pub content : Bytes

pub record MimeType : Type 0 where
  pub main_type : Bytes
  pub subtype : Bytes
  pub parameters : List Parameter

abbrev pub trim : Bytes → Bytes
trim s = trim_back (trim_front s)

-- `emplace`: a key that is there keeps its value.
unfoldable pub emplace : Bytes → Bytes → List Parameter → List Parameter
emplace k v [] = record { key = k; content = v } ∷ []
emplace k v (p ∷ ps) =
    let rest = emplace k v ps in
    if bytes_eq p.key k
    then p ∷ ps
    else if bytes_lt k p.key
    then record { key = k; content = v } ∷ p ∷ ps
    else p ∷ rest

abbrev pub unquoted : Bytes → Bytes
unquoted val =
    if leb 2 (length val) && (get_or val 0 0 == 34) && (get_or val (length val - 1) 0 == 34)
    then take (length val - 2) (drop 1 val)
    else val

abbrev pub store : Bytes → Bytes → List Parameter → List Parameter
store [] val out = out
store (k ∷ ks) val out = emplace (k ∷ ks) val out

-- A segment without an equals sign, as an empty one, is passed over.
abbrev pub on_segment : Option (Bytes × Bytes) → List Parameter → List Parameter
on_segment none out = out
on_segment (some (before, behind)) out = store (trim before) (unquoted (trim behind)) out

abbrev pub segment_of : Bytes → Option (Bytes × Bytes) → Bytes
segment_of value none = trim value
segment_of value (some (before, behind)) = trim before

abbrev pub behind_segment : Option (Bytes × Bytes) → Bytes
behind_segment none = []
behind_segment (some (before, behind)) = behind

unfoldable pub parameters_loop : ℕ → Bytes → List Parameter → List Parameter
unfolding cut emplace trim_front trim_back
parameters_loop fuel [] out = out
parameters_loop zero (c ∷ cs) out = out
parameters_loop (suc fuel) (c ∷ cs) out =
    parameters_loop fuel (behind_segment (cut 59 (c ∷ cs)))
      (on_segment (cut 61 (segment_of (c ∷ cs) (cut 59 (c ∷ cs)))) out)

-- A round takes a character at least.
unfoldable pub parse_header_parameters : Bytes → List Parameter
unfolding parameters_loop
parse_header_parameters value = parameters_loop (length value) value []

-- `essence_part` at its slash, with the parameters.
abbrev pub typed : Bytes → Option (Bytes × Bytes) → List Parameter → MimeType
typed essence none ps = record { main_type = essence; subtype = []; parameters = ps }
typed essence (some (before, behind)) ps = record {
  main_type = before;
  subtype = behind;
  parameters = ps;
}

abbrev pub parse : Bytes → MimeType
parse value =
    let essence = segment_of value (cut 59 value) in
    typed essence (cut 47 essence) (parse_header_parameters (behind_segment (cut 59 value)))

unfoldable pub parameter : Bytes → List Parameter → Option Bytes
parameter name [] = none
parameter name (p ∷ ps) =
    let rest = parameter name ps in if bytes_eq p.key name then some p.content else rest

abbrev pub essence_of : MimeType → Bytes
essence_of m = m.main_type ++ 47 ∷ m.subtype

unfoldable pub parameters_text : List Parameter → Bytes
parameters_text [] = []
parameters_text (p ∷ ps) = codes "; " ++ p.key ++ 61 ∷ p.content ++ parameters_text ps

abbrev pub mime_text : MimeType → Bytes
mime_text m = essence_of m ++ parameters_text m.parameters
