-- ===== src/Tests/Metadata.antt =====
-- Policy metadata as JSON, in two orders.
use treetop_core.Prelude.{ℕ, [], ◌∷◌, true, ◌≡◌, refl, ap, nat_beq_iff, ◌==◌, nat_eq}
use treetop_core.Json.{
  Numbers, Node, bool_node, number_node, object_node, cons_entries, nil_entries, node_eq,
  entries_len, any_entry, write_node,
}
use treetop_core.Json.Agreement.{IsMapped, node_eq-write_node}
use treetop_core.Tests.Orders.{text_order}
use treetop_core.Tests.Texts.{differ}

abbrev sample_numbers : Numbers
sample_numbers = record {
  Number = ℕ;
  same = λ m n. m == n;
  bytes = λ n. n ∷ [];
  same-bytes = λ m n h. ap (λ k. k ∷ []) ((nat_beq_iff m n).0 h);
}

abbrev first_order : Node sample_numbers
first_order =
    object_node (cons_entries "b" (number_node 2) (cons_entries "a" (bool_node true) nil_entries))

abbrev second_order : Node sample_numbers
second_order =
    object_node (cons_entries "a" (bool_node true) (cons_entries "b" (number_node 2) nil_entries))

first_order-IsMapped : IsMapped sample_numbers first_order
unfolding IsMapped
first_order-IsMapped = ((differ "b" "a" refl, tt), tt, (tt, tt, tt))

second_order-IsMapped : IsMapped sample_numbers second_order
unfolding IsMapped
second_order-IsMapped = ((differ "a" "b" refl, tt), tt, (tt, tt, tt))

orders-node_eq : node_eq sample_numbers first_order second_order ≡ true
unfolding node_eq entries_len any_entry
orders-node_eq = refl

node_eq-write_node_example :
    write_node sample_numbers text_order first_order
    ≡ write_node sample_numbers text_order second_order
node_eq-write_node_example =
    node_eq-write_node sample_numbers text_order first_order second_order first_order-IsMapped
      second_order-IsMapped orders-node_eq
