-- ===== src/Proxy/Unknown.antt =====
-- vermouth/http_proxy.go: a balancer that the factory does not know.
use vermouth.Prelude.{
  refl, ap, Bool, false, none, some, List, arith, Str, beq_refl, ret, panic, unlocked, lock, unlock,
  ◌≡◌, ◌∙◌, ◌>>=◌, nat_eq, str_eq,
}
use vermouth.Balancer
use vermouth.Balancer.{Balancer}
use vermouth.Prefix
use vermouth.Prelude.Map
use vermouth.Rate.{RateLib}
use vermouth.Proxy.{
  HttpReverseProxy, add_prefix, add_prefix_body, remove_prefix, remove_prefix_body, change_lb,
  locked, or_false,
}

module _ (lib : RateLib) where
  -- AddPrefix of a prefix that is not there, with an algorithm that the factory does not know,
  -- panics on a proxy whose lock is free.
  pub add_prefix-panic :
      (prefix algo : Str) (hosts : List Str) (is_static : Bool) (proxy : HttpReverseProxy lib)
      → proxy.mutex ≡ unlocked
      → Map.has proxy.prefix_mapping.mapping prefix ≡ false
      → Balancer.build algo hosts ≡ ret none
      → add_prefix lib prefix algo hosts is_static proxy ≡ panic
  unfolding add_prefix locked lock add_prefix_body Prefix.add Prefix.added Prefix.get_balancer
  add_prefix-panic prefix algo hosts is_static proxy free missing unknown =
      rw
        (
          add_prefix,
          locked,
          lock,
          free,
          add_prefix_body,
          missing,
          Prefix.add,
          unknown,
          Map.get-is_none proxy.prefix_mapping.mapping prefix missing,
        )
        refl

  gone :
      (prefix : Str) (proxy : HttpReverseProxy lib)
      → Map.has (remove_prefix_body lib prefix proxy).prefix_mapping.mapping prefix ≡ false
  unfolding remove_prefix_body Prefix.remove
  gone prefix proxy =
      ground (arith, Map.has-remove proxy.prefix_mapping.mapping prefix prefix, beq_refl prefix)

  pub remove_prefix-ret :
      (prefix : Str) (proxy : HttpReverseProxy lib)
      → proxy.mutex ≡ unlocked
      → remove_prefix lib prefix proxy ≡ ret (remove_prefix_body lib prefix proxy)
  unfolding remove_prefix locked lock unlock remove_prefix_body
  remove_prefix-ret prefix proxy free = rw (remove_prefix, locked, lock, free) refl

  -- ChangeLb of a prefix that is there, to an algorithm that the factory does not know, panics, when
  -- it has taken the prefix out already.
  pub change_lb-panic :
      (prefix algo : Str) (proxy : HttpReverseProxy lib) (old : Balancer)
      → proxy.mutex ≡ unlocked
      → Map.get proxy.prefix_mapping.mapping prefix ≡ some old
      → Balancer.build algo (Balancer.hosts old) ≡ ret none
      → change_lb lib prefix algo proxy ≡ panic
  unfolding change_lb Prefix.get_balancer remove_prefix_body
  change_lb-panic prefix algo proxy old free there unknown =
      rw (change_lb, Prefix.get_balancer, there)
        (ap
            (λ m.
              m
              >>= add_prefix lib prefix algo (Balancer.hosts old)
                  (or_false (Map.get proxy.static_mapping prefix)))
            (remove_prefix-ret prefix proxy free)
          ∙ add_prefix-panic prefix algo (Balancer.hosts old)
              (or_false (Map.get proxy.static_mapping prefix)) (remove_prefix_body lib prefix proxy)
              free (gone prefix proxy) unknown)
