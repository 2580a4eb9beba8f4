-- ===== src/Session.antt =====
-- src/session.c: saint mode, the escaping of paths, and the health of the servers, which decides the
-- order in which curl tries them. libcurl, rand and qsort are parameters.
pub mod Escape
pub mod Scores
mod Tests
use fusedav.Prelude.{
  ℕ, zero, suc, ◌+◌, ◌-◌, Bool, true, false, ◌&&◌, ◌||◌, not, Option, none, some, List, [], ◌∷◌,
  ◌++◌, map, ltb, leb, ◌==◌, if◌then◌else◌, take, drop,
}
use fusedav.Text.{Text, slash, str_eq}

abbrev pub saint_mode_duration : ℕ
saint_mode_duration = 10

-- The arguments are `failure_timestamp` and the time.
unfoldable pub use_saint_mode : ℕ → ℕ → Bool
use_saint_mode failure_timestamp now = leb now (failure_timestamp + saint_mode_duration)

-- The new `failure_timestamp`.
unfoldable pub set_saint_mode : ℕ → ℕ
set_saint_mode now = now

-- Every slash becomes a character that is not escaped.
unfoldable pub hide_slashes : Text → Text
hide_slashes [] = []
hide_slashes (c ∷ path) = (if c == slash then b'0' else c) ∷ hide_slashes path

-- One escaped character is a byte, or a percent sign and two more.
unfoldable pub restore_slashes : Text → Text → Text
restore_slashes [] escaped = escaped
restore_slashes (c ∷ path) [] = []
restore_slashes (c ∷ path) (d ∷ escaped) =
    let byte = if c == slash then slash else d in
    let short = restore_slashes path escaped in
    let long = restore_slashes path (drop 2 escaped) in
    if byte == b'%' then byte ∷ take 2 escaped ++ long else byte ∷ short

unfoldable pub restore_in : Text → Option Text → Option Text
unfolding restore_slashes
restore_in path none = none
restore_in path (some escaped) = some (restore_slashes path escaped)

-- `none` is a null pointer, which `curl_easy_escape` returns where memory is short.
unfoldable pub escape_except_slashes : (Text → Option Text) → Text → Option Text
unfolding restore_in hide_slashes
escape_except_slashes curl_easy_escape path = restore_in path (curl_easy_escape (hide_slashes path))

-- `struct health_status_s`. `none` is a text that is not set.
pub record HealthStatus : Type 0 where
  pub curladdr : Option Text
  pub score : ℕ
  pub timestamp : ℕ

-- The hash table, in the order in which it is walked through.
abbrev pub NodeTable : Type 0
NodeTable = List (Text × HealthStatus)

abbrev new_status : Option Text → HealthStatus
new_status curladdr = record { curladdr = curladdr; score = 0; timestamp = 0 }

-- The status of a node after a change, which starts from a new one where there is none.
unfoldable pub with_health_status :
    Text → Option Text → (HealthStatus → HealthStatus) → NodeTable → NodeTable
with_health_status addr curladdr change [] = (addr, change (new_status curladdr)) ∷ []
with_health_status addr curladdr change ((a, status) ∷ table) =
    let rest = with_health_status addr curladdr change table in
    if str_eq a addr then (a, change status) ∷ table else (a, status) ∷ rest

-- The call for an address that was just looked up.
unfoldable pub get_health_status : Text → Text → NodeTable → NodeTable
unfolding with_health_status
get_health_status addr curladdr table =
    with_health_status addr (some curladdr) (λ status. status) table

unfoldable pub fail_node : Bool → ℕ → ℕ → HealthStatus → HealthStatus
fail_node res_ok response_code now status = record status {
  score = if not res_ok || leb 500 response_code then 2 else status.score;
  timestamp = now;
}

unfoldable pub increment_node_failure : Text → Bool → ℕ → ℕ → NodeTable → NodeTable
unfolding with_health_status fail_node
increment_node_failure addr res_ok response_code now table =
    with_health_status addr none (fail_node res_ok response_code now) table

unfoldable pub clear_node : ℕ → HealthStatus → HealthStatus
clear_node now status =
    if ltb 0 status.score
    then record status { score = status.score - 1; timestamp = now }
    else status

unfoldable pub increment_node_success : Text → ℕ → NodeTable → NodeTable
unfolding with_health_status clear_node
increment_node_success addr now table = with_health_status addr none (clear_node now) table

-- `iter` is `none` for -1.
unfoldable pub log_filesystem_nodes : Text → Bool → ℕ → Option ℕ → ℕ → NodeTable → NodeTable
unfolding increment_node_failure increment_node_success
log_filesystem_nodes nodeaddr res_ok response_code iter now table =
    if not res_ok || leb 500 response_code
    then increment_node_failure nodeaddr res_ok response_code now table
    else elim iter [ none ↦ table | some idx ↦ increment_node_success nodeaddr now table ]

-- Unless the list is forced, a degraded node comes one step closer to the others.
unfoldable pub decrement_scores : Bool → NodeTable → NodeTable
decrement_scores force [] = []
decrement_scores force ((addr, status) ∷ table) =
    let rest = decrement_scores force table in
    if not force && not (status.score == 0)
    then (addr, record status { score = status.score - 1 }) ∷ rest
    else (addr, status) ∷ rest

-- The addresses that getaddrinfo returned, each with the text for curl.
unfoldable pub note_addresses : List (Text × Text) → NodeTable → NodeTable
unfolding get_health_status
note_addresses [] table = table
note_addresses ((addr, curladdr) ∷ addresses) table =
    note_addresses addresses (get_health_status addr curladdr table)

abbrev pub Scored : Type 0
Scored = List (Option Text × ℕ)

unfoldable pub addr_scores : NodeTable → Scored
addr_scores [] = []
addr_scores ((addr, status) ∷ table) = (status.curladdr, status.score) ∷ addr_scores table

count_of : List (Text × Text) → ℕ
count_of [] = 0
count_of (a ∷ addresses) = suc (count_of addresses)

-- A new list: the table and the order in which curl tries the addresses, of which only the first
-- are taken, as many as were returned. `arrange` is `randomize` and `qsort`.
unfoldable pub new_resolve_slist :
    (Scored → Scored) → Bool → List (Text × Text) → NodeTable → NodeTable × List (Option Text)
unfolding note_addresses decrement_scores addr_scores count_of
new_resolve_slist arrange force addresses table =
    let after = decrement_scores force (note_addresses addresses table) in
    (after, map (λ s. s.0) (arrange (take (count_of addresses) (addr_scores after))))

-- `node_status`, where an empty list is a null pointer, and `prevtime`.
pub record Resolver : Type 0 where
  pub node_hash_table : NodeTable
  pub resolve_slist : List (Option Text)
  pub prevtime : ℕ

unfoldable pub is_null : List (Option Text) → Bool
is_null [] = true
is_null (a ∷ slist) = false

-- A list that is not forced, is there, and is younger than two minutes stays.
unfoldable pub needs_list : Bool → ℕ → Resolver → Bool
unfolding is_null
needs_list force curtime r = force || is_null r.resolve_slist || leb 120 (curtime - r.prevtime)

abbrev pub max_nodes : ℕ
max_nodes = 32

-- The addresses are those of getaddrinfo, none where it fails.
unfoldable pub construct_resolve_slist :
    (Scored → Scored) → Bool → ℕ → Option (List (Text × Text)) → Resolver → Resolver
unfolding new_resolve_slist needs_list
construct_resolve_slist arrange force curtime addresses r =
    if needs_list force curtime r
    then (elim addresses [
      | none ↦ record r { resolve_slist = []; prevtime = curtime }
      | some found ↦
          let (table, slist) =
            new_resolve_slist arrange force (take max_nodes found) r.node_hash_table in
          record { node_hash_table = table; resolve_slist = slist; prevtime = curtime }
    ])
    else r

with_query : Text → Text → Option Text → Text
with_query base_url escaped none = base_url ++ escaped
with_query base_url escaped (some query) = base_url ++ escaped ++ b'?' ∷ query

full_url : Text → Option Text → Option Text → Option Text
unfolding with_query
full_url base_url query_string none = none
full_url base_url query_string (some escaped) = some (with_query base_url escaped query_string)

-- The URL of a new request; `none`, a null pointer, in saint mode or without a handle.
unfoldable pub session_request_init :
    (Text → Option Text) → Text → Bool → Bool → Text → Option Text → Option Text
unfolding full_url escape_except_slashes
session_request_init curl_easy_escape base_url saint_mode has_handle path query_string =
    if saint_mode || not has_handle
    then none
    else full_url base_url query_string (escape_except_slashes curl_easy_escape path)
