-- ===== src/Limiter/Capacity.antt =====
-- The table of the limiter never holds more identities than it may.
use low_context_inference.Base.{
  ℕ, zero, suc, ◌≤◌, ◌<◌, ◌≡◌, refl, sym, ap, ◌∙◌, Bool, Option, none, some, String, List, [], ◌∷◌,
  leb, leb→gt, is_some, if◌then◌else◌, length, arith, Bool-cases, inl, inr,
}
use low_context_inference.Limiter.{
  Floats, Dict, keys, find, set, del, RateLimiter, forget, forget_all, coldest_from, init, stale,
  expire_stale, make_room, sweep, admit_new, refilled, take_token, consume, admit_conversation,
  admit, identity_count, client_key, conversation_key,
}
use low_context_inference.Limiter.Keys.{
  without, with_key, has, length-without, length-without_le, length-with_key, grown, keys-del,
  keys-set, has-find, IsAligned, forget-IsAligned, coldest_from-has, has_self, length-keys,
}

module _ (fl : Floats) where
  open fl use {Num, less}

  module _ (rate burst ttl sweep_interval : Num) (max_identities : ℕ)
      (normalize : String → String) where
    abbrev pub IsBounded : RateLimiter fl → Type 0
    IsBounded s = IsAligned fl s × (length s.tokens ≤ max_identities)

    length-forget : (k : String) (s : RateLimiter fl) → length (del fl k s.tokens) ≤ length s.tokens
    length-forget k s = omega (
      arith,
      length-without_le k (keys fl s.tokens),
      length-keys fl s.tokens,
      length-keys fl (del fl k s.tokens),
      ap length (keys-del fl k s.tokens),
    )

    forget_all-IsBounded :
        (ks : List String) (s : RateLimiter fl) → IsBounded s → IsBounded (forget_all fl ks s)
    forget_all-IsBounded [] s h = h
    forget_all-IsBounded (k ∷ ks) s (a, b) =
        forget_all-IsBounded ks (forget fl k s)
          (forget-IsAligned fl k s a, omega (arith, b, length-forget k s))

    make_room-leaves :
        (rounds : ℕ) (t u : Dict fl) (w : Num)
        → 1 ≤ max_identities
        → length t ≤ rounds
        → keys fl t ≡ keys fl u
        → let s =
            make_room fl rate burst ttl sweep_interval max_identities normalize rounds
              (record { tokens = t; updated = u; last_sweep = w }) in
          IsAligned fl s × (length s.tokens < max_identities)
    unfolding make_room
    make_room-leaves zero t u w h b a = (a, omega arith)
    make_room-leaves (suc rounds) t [] w h b a = (a, omega (arith, ap length a, length-keys fl t))
    make_room-leaves (suc rounds) t (e ∷ d) w h b a =
        let k = coldest_from fl e d in
        let present =
          coldest_from-has fl (keys fl (e ∷ d)) e d (has_self fl (keys fl (e ∷ d))).0
            (has_self fl (keys fl (e ∷ d))).1 in
        elim (Bool-cases (leb max_identities (length t))) [
          | inr f ↦ rw (f, make_room) (a, leb→gt _ _ f)
          | inl f ↦
              rw (f, make_room)
                (make_room-leaves rounds (del fl k t) (del fl k (e ∷ d)) w h
                  (omega (
                    arith,
                    b,
                    length-keys fl t,
                    length-keys fl (del fl k t),
                    ap length (keys-del fl k t),
                    ap length a,
                    length-without k (keys fl (e ∷ d)) present,
                    ap (λ js. length (without k js)) a,
                  ))
                  (keys-del fl k t ∙ ap (without k) a ∙ sym (keys-del fl k (e ∷ d))))
        ]

    take_token-IsBounded :
        (now : Num) (key : String) (s : RateLimiter fl)
        → IsAligned fl s
        → length (with_key key (keys fl s.tokens)) ≤ max_identities
        → IsBounded
            (take_token fl rate burst ttl sweep_interval max_identities normalize now key s).0
    unfolding take_token
    take_token-IsBounded now key s a b =
        let n = refilled fl rate burst ttl sweep_interval max_identities normalize now key s in
        elim (Bool-cases (less n fl.one)) [
          | inl e ↦ rw (e, take_token) (written n)
          | inr e ↦ rw (e, take_token) (written (fl.minus n fl.one))
        ]
      where
        written :
            (m : Num)
            → IsBounded
                (record s { tokens = set fl key m s.tokens; updated = set fl key now s.updated })
        written m = (
          keys-set fl key m s.tokens ∙ ap (with_key key) a ∙ sym (keys-set fl key now s.updated),
          omega (
            arith,
            b,
            ap length (keys-set fl key m s.tokens),
            length-keys fl (set fl key m s.tokens),
          ),
        )

    sweep-IsBounded :
        (now : Num) (s : RateLimiter fl)
        → IsBounded s
        → IsBounded (sweep fl rate burst ttl sweep_interval max_identities normalize now s)
    unfolding expire_stale
    sweep-IsBounded now s h = elim (Bool-cases (less (fl.minus now s.last_sweep) sweep_interval)) [
      | inl e ↦ rw e h
      | inr e ↦ rw e (
          forget_all-IsBounded
            (stale fl rate burst ttl sweep_interval max_identities normalize now s.updated) s h)
    ]

    consume-IsBounded :
        (now : Num) (key : String) (s : RateLimiter fl)
        → 1 ≤ max_identities
        → IsBounded s
        → IsBounded (consume fl rate burst ttl sweep_interval max_identities normalize now key s).0
    unfolding consume
    consume-IsBounded now key s h b =
        go (sweep fl rate burst ttl sweep_interval max_identities normalize now s)
          (sweep-IsBounded now s b)
      where
        go :
            (r : RateLimiter fl)
            → IsBounded r
            → IsBounded
                (take_token fl rate burst ttl sweep_interval max_identities normalize now key
                  (admit_new fl rate burst ttl sweep_interval max_identities normalize key r)).0
        go r (a, c) = elim (Bool-cases (is_some (find fl key r.updated))) [
          | inl e ↦ rw e (
              take_token-IsBounded now key r a (
                omega (
                  arith,
                  c,
                  length-keys fl r.tokens,
                  length-with_key key (keys fl r.tokens)
                      ∙ ap
                          (λ p.
                            if p
                            then length (keys fl r.tokens)
                            else suc (length (keys fl r.tokens)))
                          (ap (has key) a ∙ sym (has-find fl key r.updated) ∙ e),
                )))
          | inr e ↦ rw e (
              let (p, q) =
                make_room-leaves (length r.tokens) r.tokens r.updated r.last_sweep h (omega arith)
                  a in
              take_token-IsBounded now key
                (make_room fl rate burst ttl sweep_interval max_identities normalize
                  (length r.tokens) r)
                p
                (omega (
                  arith,
                  q,
                  length-keys fl
                      (make_room fl rate burst ttl sweep_interval max_identities normalize
                        (length r.tokens) r).tokens,
                  grown key (
                      keys fl
                        (make_room fl rate burst ttl sweep_interval max_identities normalize
                          (length r.tokens) r).tokens),
                )))
        ]

    admit-IsBounded :
        (now : Num) (client : String) (conversation : Option String) (s : RateLimiter fl)
        → 1 ≤ max_identities
        → IsBounded s
        → IsBounded
            (admit fl rate burst ttl sweep_interval max_identities normalize now client conversation
              s).0
    unfolding admit admit_conversation
    admit-IsBounded now client conversation s h b = elim (Bool-cases first.1) [
      | inr e ↦ rw (e, admit) bounded
      | inl e ↦ rw (e, admit) (second conversation)
    ]
      where
        first : RateLimiter fl × Bool
        first =
            consume fl rate burst ttl sweep_interval max_identities normalize now
              (client_key fl rate burst ttl sweep_interval max_identities normalize client) s

        bounded : IsBounded first.0
        bounded =
            consume-IsBounded now
              (client_key fl rate burst ttl sweep_interval max_identities normalize client) s h b

        second :
            (c : Option String)
            → IsBounded
                (admit_conversation fl rate burst ttl sweep_interval max_identities normalize now c
                  first.0).0
        second none = bounded
        second (some key) =
            consume-IsBounded now
              (conversation_key fl rate burst ttl sweep_interval max_identities normalize key)
              first.0 h bounded

    -- a sequence of requests: the clock, the client and the conversation of each
    abbrev pub admit_all : List (Num × Option String × String) → RateLimiter fl → RateLimiter fl
    admit_all [] s = s
    admit_all ((now, conversation, client) ∷ rest) s =
        admit_all rest
          (admit fl rate burst ttl sweep_interval max_identities normalize now client conversation
            s).0

    -- From a new limiter that allows at least one identity, every sequence of requests, whatever the
    -- clock shows, leaves at most `max_identities` buckets, and as many times as tokens.
    pub admit_all-IsBounded :
        (requests : List (Num × Option String × String)) (now : Num)
        → 1 ≤ max_identities
        → let s = admit_all requests (init fl now) in
          (identity_count fl rate burst ttl sweep_interval max_identities normalize s
            ≤ max_identities)
          × (keys fl s.tokens ≡ keys fl s.updated)
    admit_all-IsBounded requests now h =
        let (a, b) = go requests (init fl now) (refl, omega arith) in (b, a)
      where
        go :
            (requests : List (Num × Option String × String)) (s : RateLimiter fl)
            → IsBounded s
            → IsBounded (admit_all requests s)
        go [] s b = b
        go ((t, conversation, client) ∷ rest) s b =
            go rest
              (admit fl rate burst ttl sweep_interval max_identities normalize t client conversation
                s).0
              (admit-IsBounded t client conversation s h b)
