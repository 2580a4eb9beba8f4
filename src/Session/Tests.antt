-- ===== src/Session/Tests.antt =====
-- Concrete inputs for the theorems on src/session.c.
use fusedav.Prelude.{
  ℕ, ◌≡◌, refl, false, some, List, [], ◌∷◌, inl, inr, ◌==◌, Bool-cases, if◌then◌else◌, arith,
}
use fusedav.Text.{Text, codes}
use fusedav.Session.{
  escape_except_slashes, NodeTable, log_filesystem_nodes, Resolver, new_resolve_slist,
  construct_resolve_slist,
}
use fusedav.Session.Escape.{escape_each, except_slash, IsEscape, escape_except_slashes-each}
use fusedav.Session.Scores.{Bounded, log_filesystem_nodes-Bounded, new_resolve_slist-recovers}

-- The space and the slash are escaped, and the percent sign.
abbrev encode : ℕ → Text
encode c =
    if c == b' '
    then codes "%20"
    else if c == b'/'
    then codes "%2F"
    else if c == b'%'
    then codes "%25"
    else c ∷ []

encode-IsEscape : (c : ℕ) → IsEscape (encode c)
encode-IsEscape c = elim (Bool-cases (c == b' ')) [
  | inl e ↦ rw e (inr (b'2', b'0', refl))
  | inr e ↦ elim (Bool-cases (c == b'/')) [
    | inl f ↦ rw (e, f) (inr (b'2', b'F', refl))
    | inr f ↦ elim (Bool-cases (c == b'%')) [
      | inl g ↦ rw (e, f, g) (inr (b'2', b'5', refl))
      | inr g ↦ rw (e, f, g) (inl (c, refl, g))
    ]
  ]
]

escape_except_slashes-each_example :
    escape_except_slashes (λ s. some (escape_each encode s)) (codes "/a b/%")
    ≡ some (escape_each (except_slash encode) (codes "/a b/%"))
escape_except_slashes-each_example =
    escape_except_slashes-each encode (λ s. some (escape_each encode s)) (codes "/a b/%")
      (λ s. refl) refl encode-IsEscape

escape_test :
    escape_except_slashes (λ s. some (escape_each encode s)) (codes "/a b/%")
    ≡ some (codes "/a%20b/%25")
unfolding escape_except_slashes escape_each
escape_test = refl

abbrev one_node : NodeTable
one_node =
    (
      codes "10.0.0.1",
      record { curladdr = some (codes "h:443:10.0.0.1"); score = 1; timestamp = 5 },
    )
    ∷ []

abbrev second_node : List (Text × Text)
second_node = (codes "10.0.0.2", codes "h:443:10.0.0.2") ∷ []

abbrev resolver : Resolver
resolver = record { node_hash_table = one_node; resolve_slist = []; prevtime = 0 }

log_filesystem_nodes-Bounded_example : Bounded 2 (
    log_filesystem_nodes
      (codes "10.0.0.1")
      false
      0
      (some 0)
      9
      (construct_resolve_slist (λ l. l) false 9 (some second_node) resolver).node_hash_table)
log_filesystem_nodes-Bounded_example =
    log_filesystem_nodes-Bounded (codes "10.0.0.1") false 0 (some 0) 9 (λ l. l) false
      (some second_node) resolver (omega arith, tt)

new_resolve_slist-recovers_example :
    Bounded 0
      (new_resolve_slist
        (λ l. l)
        false
        []
        (new_resolve_slist (λ l. l) false second_node one_node).0).0
new_resolve_slist-recovers_example =
    new_resolve_slist-recovers (λ l. l) second_node [] one_node (omega arith, tt)
