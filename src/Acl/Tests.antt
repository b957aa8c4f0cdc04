-- ===== src/Acl/Tests.antt =====
-- Runs of the access control list on the inputs of acl/radix_tree_test.go, and on a list whose nodes
-- have been used before.
use vermouth.Prelude.{
  String, refl, Bool, true, false, Option, some, List, [], codes, str_beq, Go, ret, ◌≡◌, ◌∷◌, ◌>>=◌,
  ◌>>◌, nat_eq, str_eq,
}
use vermouth.Acl.{
  RadixTree, new_radix_tree, AclError, add, access_control, invalid_ip_address, invalid_net_mask,
}
use vermouth.Acl.Delete.{delete_net}

abbrev add_all : List String → RadixTree → Go RadixTree
add_all [] t = ret t
add_all (s ∷ ss) t = add t (codes s) (codes s) >>= λ r. add_all ss r.1

-- Whether each address may not come in.
abbrev all_forbidden : List String → RadixTree → Go (List Bool)
all_forbidden [] t = ret []
all_forbidden (s ∷ ss) t = do b ← access_control t (codes s); bs ← all_forbidden ss t; ret (b ∷ bs)

access_control_test_1 :
    (add_all ("192.168.3.0/24" ∷ "192.168.100.100/32" ∷ "172.12.0.0/16" ∷ []) new_radix_tree
      >>= all_forbidden ("192.168.3.1" ∷ "192.168.100.100" ∷ "172.12.100.100" ∷ []))
    ≡ ret (true ∷ true ∷ true ∷ [])
unfolding add access_control new_radix_tree vermouth.Net.inet_toi vermouth.Golib.Strings.split
    vermouth.Golib.Strings.first vermouth.Golib.Strconv.atoi vermouth.Golib.Strings.rest
    vermouth.Prelude.str_beq vermouth.Acl.second
access_control_test_1 = refl

access_control_test_2 :
    (add_all ("192.168.3.0/24" ∷ "192.168.100.100/32" ∷ "172.12.1.0/24" ∷ []) new_radix_tree
      >>= all_forbidden ("192.168.3.1" ∷ "192.168.100.101" ∷ "172.12.2.2" ∷ []))
    ≡ ret (true ∷ false ∷ false ∷ [])
unfolding add access_control new_radix_tree vermouth.Net.inet_toi vermouth.Golib.Strings.split
    vermouth.Golib.Strings.first vermouth.Golib.Strconv.atoi vermouth.Golib.Strings.rest
    vermouth.Prelude.str_beq vermouth.Acl.second
access_control_test_2 = refl

abbrev the_error : Go (Option AclError × RadixTree) → Go (Option AclError)
the_error r = r >>= λ p. ret p.0

add_errors :
    (the_error (add new_radix_tree (codes "1234567") []) ≡ ret (some invalid_ip_address))
    × (the_error (add new_radix_tree (codes "111.222.333") []) ≡ ret (some invalid_ip_address))
    × (the_error (add new_radix_tree (codes "1.2.3.4/33") []) ≡ ret (some invalid_net_mask))
unfolding add new_radix_tree vermouth.Net.inet_toi vermouth.Golib.Strings.split
    vermouth.Golib.Strings.first vermouth.Golib.Strconv.atoi vermouth.Golib.Strings.rest
    vermouth.Acl.second
add_errors = (refl, refl, refl)

-- 224.0.0.0/3 is removed and 0.0.0.0/2 is added: the new nodes come from the free list with their
-- old right pointers, so that 64.0.0.1 is found below 0.0.0.0/2.
stale_node_test :
    (add_all ("224.0.0.0/3" ∷ []) new_radix_tree >>= λ t.
    delete_net t (codes "224.0.0.0/3") >>= λ r.
    add_all ("0.0.0.0/2" ∷ []) r.1 >>= all_forbidden ("1.0.0.0" ∷ "128.0.0.1" ∷ "64.0.0.1" ∷ []))
    ≡ ret (true ∷ false ∷ true ∷ [])
unfolding add access_control new_radix_tree delete_net vermouth.Net.inet_toi
    vermouth.Golib.Strings.split vermouth.Golib.Strings.first vermouth.Golib.Strconv.atoi
    vermouth.Golib.Strings.rest vermouth.Prelude.str_beq vermouth.Acl.second
stale_node_test = refl
