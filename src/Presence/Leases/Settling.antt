-- ===== src/Presence/Leases/Settling.antt =====
-- What a check finds, and that it takes a crashed server's users offline.
use chat_app_backend.Prelude.{
  ℕ, ◌+◌, ◌≤◌, ◌≡◌, refl, ap, sym, ◌∙◌, Bool, true, false, not, ◌&&◌, and_true, none, List, [], ◌∷◌,
  ==_refl, leb, ltb, count, Bool-cases, inl, inr, arith,
}
use chat_app_backend.Presence.Leases.{
  Zset, Commands, IsCommands, has_member, RedisState, socket_lease_ms, is_nil, mark_offline,
  settle_leases, snapshot_of,
}
use chat_app_backend.Presence.Leases.Online.{
  outlasts, live, any_lease, LeaseCall, lease_steps, Shown, nothing, count_mono, is_nil-count,
  lease_steps-Shown,
}

-- No socket, and nobody online.
abbrev pub fresh : RedisState
fresh = record { sockets = λ u. []; online = []; last_seen = λ u. none }

fresh-Shown : (now : ℕ) → Shown (now, fresh)
fresh-Shown now = record { online = λ u l. elim (nothing 0 l refl) [ ]; short = λ u. refl }

full-count : (z : Zset) → is_nil z ≡ false → 1 ≤ count any_lease z
full-count [] h = ground (arith, h)
full-count (e ∷ z) h = omega arith

module _ (redis : Commands) (manual : IsCommands redis) where
  -- What is left once the leases that have run out are gone.
  left_live :
      (now u : ℕ) (s : RedisState)
      → count any_lease (redis.zremrangebyscore now (s.sockets u)) ≡ live now s u
  left_live now u s = manual.count-zremrangebyscore now (s.sockets u) any_lease ∙ same (s.sockets u)
    where
      same : (z : Zset) → count (λ e. not (leb e.1 now) && true) z ≡ count (outlasts now) z
      same [] = refl
      same (e ∷ z) = rw (and_true (not (leb e.1 now)), same z) refl

  -- Where every user with a lease is shown online, a check of a user leaves that user online exactly if some lease of the user
  -- has not run out, and answers true exactly if the user was shown online and no longer is.
  pub settle_leases-exact :
      (now u : ℕ) (s : RedisState)
      → Shown (now, s)
      → ((snapshot_of redis (settle_leases redis now u s).0 u).online ≡ ltb 0 (live now s u))
        × ((settle_leases redis now u s).1
            ≡ ((snapshot_of redis s u).online && not (ltb 0 (live now s u))))
  unfolding settle_leases mark_offline snapshot_of
  settle_leases-exact now u s h =
      elim (Bool-cases (is_nil (redis.zremrangebyscore now (s.sockets u)))) [
        | inl e ↦
            let none_live : ltb 0 (live now s u) ≡ false = not_positive (live now s u) (
              sym (left_live now u s)
              ∙ is_nil-count any_lease (redis.zremrangebyscore now (s.sockets u)) e) in
            rw (e, none_live)
              (
                manual.has_member-srem u u s.online
                    ∙ rw (==_refl u) (and_false (has_member u s.online)),
                manual.srem-changed u s.online ∙ sym (and_true (has_member u s.online)),
              )
        | inr e ↦
            let some_live : ltb 0 (live now s u) ≡ true = positive (live now s u) (
              omega (
                arith,
                left_live now u s,
                full-count (redis.zremrangebyscore now (s.sockets u)) e,
              )) in
            let shown : has_member u s.online ≡ true = h.online u (
              omega (
                arith,
                left_live now u s,
                full-count (redis.zremrangebyscore now (s.sockets u)) e,
                count_mono (outlasts now) any_lease (λ e m. refl) (s.sockets u),
              )) in
            rw (e, some_live, shown) (refl, refl)
      ]
    where
      not_positive : (n : ℕ) → n ≡ 0 → ltb 0 n ≡ false
      not_positive n z = ground (arith, z)

      positive : (n : ℕ) → 1 ≤ n → ltb 0 n ≡ true
      positive n z = ground (arith, z)

      and_false : (a : Bool) → (a && false) ≡ false
      and_false true = refl
      and_false false = refl

  -- After any calls on an empty store, when 90 seconds or more have passed without a heartbeat, as after the crash of a user's
  -- servers, a check shows the user offline.
  pub settle_leases-crashed :
      (calls : List LeaseCall) (start n u : ℕ)
      → socket_lease_ms ≤ n
      → (snapshot_of redis
          (settle_leases redis
            ((lease_steps redis calls (start, fresh)).0 + n)
            u
            (lease_steps redis calls (start, fresh)).1).0
          u).online
        ≡ false
  settle_leases-crashed calls start n u h =
      gone (lease_steps redis calls (start, fresh))
        (lease_steps-Shown redis manual calls (start, fresh) (fresh-Shown start))
    where
      no_live : (c : ℕ × RedisState) → Shown c → live (c.0 + n) c.1 u ≡ 0
      no_live c k = omega (
        arith,
        k.short u,
        count_mono (outlasts (c.0 + n)) (outlasts (c.0 + socket_lease_ms))
            (λ e m. ground (arith, m, h)) (c.1.sockets u),
      )

      later : (c : ℕ × RedisState) → Shown c → Shown (c.0 + n, c.1)
      later c k = lease_steps-Shown redis manual (LeaseCall.waits n ∷ []) c k

      gone :
          (c : ℕ × RedisState)
          → Shown c
          → (snapshot_of redis (settle_leases redis (c.0 + n) u c.1).0 u).online ≡ false
      gone c k = (settle_leases-exact (c.0 + n) u c.1 (later c k)).0 ∙ ap (ltb 0) (no_live c k)
