-- ===== src/Tokens/Servers.antt =====
-- The servers that a token is limited to: how the ids are stored, and which server it may touch.
use Prim.Native.Char.{Char, char, code}
use Prim.Native.String.{[], ◌∷◌}
use sakura_monitoring.Base.{
  ℕ, zero, suc, ◌+◌, ◌-◌, ◌*◌, ◌/◌, ◌%◌, ◌^◌, Bool, true, false, ◌||◌, List, String, ltb, ◌==◌,
  str_eq, if◌then◌else◌, any, map,
}
use sakura_monitoring.Base.Text.{trim_space, split, join}
use sakura_monitoring.Tokens.Scopes.{ApiToken, comma}

-- The loop over the characters of an id, in a uint64; another character than a digit makes it 0.
unfoldable pub parse_id : ℕ → String → ℕ
parse_id id [] = id
parse_id id (c ∷ s) = elim (ltb (code c) b'0' || ltb b'9' (code c)) [
  | true ↦ 0
  | false ↦ parse_id ((id * 10 + (code c - b'0')) % 2 ^ 64) s
]

-- The loop of `ServerIDs`
unfoldable pub parse_ids : List String → List ℕ
unfolding parse_id
parse_ids List.[] = List.[]
parse_ids (List.◌∷◌ p ps) =
    let rest = parse_ids ps in
    if str_eq (trim_space p) ""
    then rest
    else if parse_id 0 (trim_space p) == 0
    then rest
    else List.◌∷◌ (parse_id 0 (trim_space p)) rest

-- `ServerIDs`
unfoldable pub server_ids : ApiToken → List ℕ
unfolding parse_ids
server_ids t =
    if str_eq t.servers_csv "" then List.[] else parse_ids (split (code comma) t.servers_csv)

-- `byte('0' + v%10)`
unfoldable pub digit : ℕ → Char
digit v =
    if v == 0
    then char 48 tt
    else if v == 1
    then char 49 tt
    else if v == 2
    then char 50 tt
    else if v == 3
    then char 51 tt
    else if v == 4
    then char 52 tt
    else if v == 5
    then char 53 tt
    else if v == 6
    then char 54 tt
    else if v == 7
    then char 55 tt
    else if v == 8
    then char 56 tt
    else char 57 tt

-- The loop of `formatUint` over a buffer with `room` bytes left; one byte too few would be an
-- index out of range.
unfoldable pub fill : (room : ℕ) → ℕ → String → String
unfolding digit
fill zero v buf = buf
fill (suc room) v buf = elim (v == 0) [
  | true ↦ buf
  | false ↦ fill room (v / 10) (digit (v % 10) ∷ buf)
]

-- `formatUint`
unfoldable pub format_uint : ℕ → String
unfolding fill
format_uint v = if v == 0 then "0" else fill 20 v ""

-- `SetServerIDs`
unfoldable pub set_server_ids : List ℕ → ApiToken → ApiToken
unfolding format_uint
set_server_ids ids t = record t { servers_csv = join comma (map format_uint ids) }

-- `CanAccessServer`
unfoldable pub can_access_server : ApiToken → ℕ → Bool
unfolding server_ids
can_access_server t server = elim (server_ids t) [
  | List.[] ↦ true
  | List.◌∷◌ id ids ↦ any (λ i. i == server) (List.◌∷◌ id ids)
]
