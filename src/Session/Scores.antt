-- ===== src/Session/Scores.antt =====
-- The scores of the servers in src/session.c.
use fusedav.Prelude.{
  ℕ, suc, ◌≤◌, Bool, false, ◌||◌, not, Option, none, some, List, [], ◌∷◌, arith, inl, inr,
  Bool-cases, leb, take,
}
use fusedav.Text.{Text, str_eq}
use fusedav.Session.{
  HealthStatus, NodeTable, with_health_status, get_health_status, fail_node, clear_node,
  increment_node_failure, increment_node_success, log_filesystem_nodes, decrement_scores,
  note_addresses, new_resolve_slist, Resolver, needs_list, max_nodes, construct_resolve_slist,
  Scored,
}

-- No score is above a bound.
abbrev pub Bounded : ℕ → NodeTable → Type 0
Bounded bound [] = Unit {0}
Bounded bound ((addr, status) ∷ table) = (status.score ≤ bound) × Bounded bound table

with_health_status-Bounded :
    (bound : ℕ) (addr : Text) (curladdr : Option Text) (change : HealthStatus → HealthStatus)
    (table : NodeTable)
    → ((status : HealthStatus) → status.score ≤ bound → (change status).score ≤ bound)
    → Bounded bound table
    → Bounded bound (with_health_status addr curladdr change table)
unfolding with_health_status
with_health_status-Bounded bound addr curladdr change [] keeps h =
    (keeps (record { curladdr = curladdr; score = 0; timestamp = 0 }) (omega arith), tt)
with_health_status-Bounded bound addr curladdr change ((a, status) ∷ table) keeps (h, more) =
    elim (Bool-cases (str_eq a addr)) [
      | inl e ↦ rw e (keeps status h, more)
      | inr e ↦ rw e (h, with_health_status-Bounded bound addr curladdr change table keeps more)
    ]

note_addresses-Bounded :
    (bound : ℕ) (addresses : List (Text × Text)) (table : NodeTable)
    → Bounded bound table
    → Bounded bound (note_addresses addresses table)
unfolding note_addresses get_health_status
note_addresses-Bounded bound [] table h = h
note_addresses-Bounded bound ((addr, curladdr) ∷ addresses) table h =
    note_addresses-Bounded bound addresses _
      (with_health_status-Bounded bound addr (some curladdr) (λ s. s) table (λ s b. b) h)

decrement_scores-Bounded :
    (bound : ℕ) (force : Bool) (table : NodeTable)
    → Bounded bound table
    → Bounded bound (decrement_scores force table)
unfolding decrement_scores
decrement_scores-Bounded bound force [] h = tt
decrement_scores-Bounded bound force ((addr, status) ∷ table) (h, more) =
    ground (arith, decrement_scores-Bounded bound force table more)

-- A list that is not forced brings every score down by one.
decrement_scores-less :
    (bound : ℕ) (table : NodeTable)
    → Bounded (suc bound) table
    → Bounded bound (decrement_scores false table)
unfolding decrement_scores
decrement_scores-less bound [] h = tt
decrement_scores-less bound ((addr, status) ∷ table) (h, more) =
    ground (arith, decrement_scores-less bound table more)

fail_node-Bounded :
    (res_ok : Bool) (response_code now : ℕ) (s : HealthStatus)
    → s.score ≤ 2
    → (fail_node res_ok response_code now s).score ≤ 2
unfolding fail_node
fail_node-Bounded res_ok response_code now s h = ground arith

clear_node-Bounded : (now : ℕ) (s : HealthStatus) → s.score ≤ 2 → (clear_node now s).score ≤ 2
unfolding clear_node
clear_node-Bounded now s h = ground arith

request-Bounded :
    (nodeaddr : Text) (res_ok : Bool) (response_code : ℕ) (iter : Option ℕ) (now : ℕ)
    (table : NodeTable)
    → Bounded 2 table
    → Bounded 2 (log_filesystem_nodes nodeaddr res_ok response_code iter now table)
unfolding log_filesystem_nodes increment_node_failure increment_node_success
request-Bounded nodeaddr res_ok response_code iter now table h =
    elim (Bool-cases (not res_ok || leb 500 response_code)) [
      | inl e ↦ rw e (
          with_health_status-Bounded 2 nodeaddr none (fail_node res_ok response_code now) table
            (fail_node-Bounded res_ok response_code now) h)
      | inr e ↦ rw e (go iter)
    ]
  where
    go :
        (i : Option ℕ)
        → Bounded 2 (elim i [ none ↦ table | some idx ↦ increment_node_success nodeaddr now table ])
    go none = h
    go (some idx) =
        with_health_status-Bounded 2 nodeaddr none (clear_node now) table (clear_node-Bounded now) h

new_resolve_slist-Bounded :
    (arrange : Scored → Scored) (force : Bool) (addresses : List (Text × Text)) (table : NodeTable)
    → Bounded 2 table
    → Bounded 2 (new_resolve_slist arrange force addresses table).0
unfolding new_resolve_slist
new_resolve_slist-Bounded arrange force addresses table h =
    decrement_scores-Bounded 2 force _ (note_addresses-Bounded 2 addresses table h)

list-Bounded :
    (arrange : Scored → Scored) (force : Bool) (curtime : ℕ)
    (addresses : Option (List (Text × Text))) (r : Resolver)
    → Bounded 2 r.node_hash_table
    → Bounded 2 (construct_resolve_slist arrange force curtime addresses r).node_hash_table
unfolding construct_resolve_slist
list-Bounded arrange force curtime addresses r h = elim (Bool-cases (needs_list force curtime r)) [
  | inr e ↦ rw e h
  | inl e ↦ rw e (go addresses)
]
  where
    go :
        (o : Option (List (Text × Text)))
        → (let s : Resolver = elim o [
          | none ↦ record r { resolve_slist = []; prevtime = curtime }
          | some found ↦
              let (table, slist) =
                new_resolve_slist arrange force (take max_nodes found) r.node_hash_table in
              record { node_hash_table = table; resolve_slist = slist; prevtime = curtime }
        ] in
            Bounded 2 s.node_hash_table)
    go none = h
    go (some found) =
        new_resolve_slist-Bounded arrange force (take max_nodes found) r.node_hash_table h

-- No request, whatever its outcome, and no list of addresses lets a score rise above 2.
pub log_filesystem_nodes-Bounded :
    (nodeaddr : Text) (res_ok : Bool) (response_code : ℕ) (iter : Option ℕ) (now : ℕ)
    (arrange : Scored → Scored) (force : Bool) (addresses : Option (List (Text × Text)))
    (r : Resolver)
    → Bounded 2 r.node_hash_table
    → Bounded 2 (
        log_filesystem_nodes nodeaddr res_ok response_code iter now
          (construct_resolve_slist arrange force now addresses r).node_hash_table)
log_filesystem_nodes-Bounded nodeaddr res_ok response_code iter now arrange force addresses r h =
    request-Bounded nodeaddr res_ok response_code iter now _
      (list-Bounded arrange force now addresses r h)

-- However a server failed, the second new list after that, if none is forced, treats it like the
-- others: all scores are 0.
pub new_resolve_slist-recovers :
    (arrange : Scored → Scored) (addresses later : List (Text × Text)) (table : NodeTable)
    → Bounded 2 table
    → Bounded 0
        (new_resolve_slist arrange false later
          (new_resolve_slist arrange false addresses table).0).0
unfolding new_resolve_slist
new_resolve_slist-recovers arrange addresses later table h = decrement_scores-less 0 _ (
    note_addresses-Bounded 1 later _
      (decrement_scores-less 1 _ (note_addresses-Bounded 2 addresses table h)))
