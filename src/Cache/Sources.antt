-- ===== src/Cache/Sources.antt =====
-- Where the value that `get_or_set` returns comes from.
use mathlib.Core.Path.{subst}
use mathlib.Core.Bool.{false≢true}
use crucible_ai.Pipeline.Runtime.{Act, Result, ok, raise}
use crucible_ai.Cache.Reads.{Aside, Looked, guarded-Answered, Answered, examine-Looked}
use crucible_ai.Cache.Service.{
  Envelope, Service, Tiers, inc_metric, not_supported, present_time, tick,
}
use crucible_ai.Cache.Manager.{
  Hit, decode_envelope, fresh_until, is_current, is_within, judge_envelope, judge_fresh,
  judge_stale, read_decoded, stale_until, read_l2, read_raw, read_l1,
}
use crucible_ai.Cache.L1.{
  L1Entry, is_fresh, is_servable, L1Cache, Lookup, count_miss, examine_entry, get_detailed, miss,
  hit, incomparable, type_error,
}
use crucible_ai.Pipeline.Model.{get_key}
use crucible_ai.Cache.Tiered.{
  CacheRequest, produce, store_produced, answer_l1, answer_l2, get_or_set, recheck_l1, recheck_l2,
  uncached, fly,
}
use crucible_ai.Cache.Redis.{l2_delete, l2_get}
use crucible_ai.Cache.Items.{Distinct}
use crucible_ai.Cache.Flights.{acquire_flight}
use crucible_ai.Prelude.{
  Bool, Option, String, ap, arith, false, if_split, inl, inr, is_some, ltb, none, refl, some, sym,
  true, ℕ, ◌&&◌, ◌||◌, ◌∙◌, ◌≡◌, ◌⊎◌,
}

module _ {V B W : Type 0} (sv : Service V B W) where
  -- The value of the entry that the first tier holds for the key, in time at a reading of the clocks.
  abbrev pub Listed : Tiers V W → CacheRequest → V → Type 0
  Listed s r v =
      (e : L1Entry V) × (n : ℕ) × (get_key r.key s.l1.store ≡ some e)
      × (e.value ≡ v)
      × ((is_fresh (sv.clock n) e || is_servable r.allow_stale (sv.clock n) e) ≡ true)

  -- The server has answered with a text that is a valid envelope of the value, in time at a reading
  -- of the clocks.
  abbrev pub Served : CacheRequest → V → Type 0
  Served r v =
      (w : W) × (w' : W) × (raw : String) × (env : Envelope) × (n : ℕ) × (sv.server_get r.key w
        ≡ (ok (some raw), w'))
      × (decode_envelope sv raw ≡ some (v, env))
      × (is_current r.allow_stale (sv.clock n).epoch env ≡ true)

  -- The first tier holds an entry for the key whose stale window ends at something that is no number.
  abbrev pub Disordered : Tiers V W → CacheRequest → Type 0
  Disordered s r =
      (e : L1Entry V) × (get_key r.key s.l1.store ≡ some e)
      × (r.allow_stale ≡ true)
      × (e.stale_until_epoch ≡ incomparable)

  -- The server has answered with a text that is a valid envelope, of which a timestamp that is asked
  -- for is no number.
  abbrev pub Malformed : CacheRequest → Type 0
  Malformed r =
      (w : W) × (w' : W) × (raw : String) × (p : V × Envelope) × (sv.server_get r.key w
        ≡ (ok (some raw), w'))
      × (decode_envelope sv raw ≡ some p)
      × ((fresh_until p.1 ≡ none) ⊎ ((r.allow_stale ≡ true) × (stale_until p.1 ≡ none)))

  -- The producer has returned the value.
  abbrev pub Produced : Act W V → V → Type 0
  Produced producer v = (w : W) × (w' : W) × (producer w ≡ (ok v, w'))

  abbrev pub Sourced : Tiers V W → CacheRequest → Act W V → Result V × Tiers V W → Type 0
  Sourced s r producer (ok v, t) = Listed s r v ⊎ (Served r v ⊎ Produced producer v)
  Sourced s r producer (raise e, t) =
      ((w : W) × (w' : W) × (producer w ≡ (raise e, w')))
      ⊎ ((e ≡ not_supported) × (Disordered s r ⊎ Malformed r))

  -- What a read of the second tier finds is served, and it leaves the first tier alone.
  abbrev pub Fetched : Tiers V W → CacheRequest → Result (Option (Hit V)) × Tiers V W → Type 0
  Fetched s r (ok none, t) = Aside s t
  Fetched s r (ok (some h), t) = Served r h.value × Aside s t
  Fetched s r (raise e, t) = ((e ≡ not_supported) × Malformed r) × Aside s t

  within_either :
      (now : ℕ) (x y : Option ℕ) (b : Bool)
      → ((is_within now x ≡ true) ⊎ ((b ≡ true) × (is_within now y ≡ true)))
      → (is_within now x || (b && is_within now y)) ≡ true
  within_either now x y b h = ground (arith, h)

  -- What the comparisons of a valid envelope come to.
  module _ (s t : Tiers V W) (r : CacheRequest) (allow : Bool) (raw : String) (w w' : W)
      (p : V × Envelope) (g : sv.server_get r.key w ≡ (ok (some raw), w'))
      (d : decode_envelope sv raw ≡ some p) (a : (allow ≡ false) ⊎ (allow ≡ r.allow_stale))
      (h : Aside s t) (n : ℕ) where
    abbrev Judged : Result (Option (Hit V)) → Type 0
    Judged x = Fetched s r (x, t)

    abbrev now : ℕ
    now = (sv.clock n).epoch

    served :
        (is_within now (fresh_until p.1) ≡ true)
          ⊎ ((r.allow_stale ≡ true) × (is_within now (stale_until p.1) ≡ true))
        → Served r p.0
    served x = (
      w,
      w',
      raw,
      p.1,
      n,
      g,
      d,
      within_either now (fresh_until p.1) (stale_until p.1) r.allow_stale x,
    )

    judge_stale-Judged :
        (b : Bool) (u : Option ℕ)
        → b ≡ allow
        → stale_until p.1 ≡ u
        → Judged (judge_stale sv b now u p)
    judge_stale-Judged false u q e = h
    judge_stale-Judged true none q e =
        ((refl, (w, w', raw, p, g, d, inr (ground (arith, a, q), e))), h)
    judge_stale-Judged true (some k) q e =
        if_split Judged (ltb now k)
          (λ z. (served (inr (ground (arith, a, q), ap (is_within now) e ∙ z)), h)) (λ _. h)

    judge_fresh-Judged :
        (u : Option ℕ) → fresh_until p.1 ≡ u → Judged (judge_fresh sv allow now u p)
    judge_fresh-Judged none e = ((refl, (w, w', raw, p, g, d, inl e)), h)
    judge_fresh-Judged (some k) e =
        if_split Judged (ltb now k) (λ z. (served (inl (ap (is_within now) e ∙ z)), h))
          (λ _. judge_stale-Judged allow (stale_until p.1) refl refl)

  judge-Fetched :
      (s t : Tiers V W) (r : CacheRequest) (allow : Bool) (raw : String) (w w' : W)
      (p : V × Envelope)
      → sv.server_get r.key w ≡ (ok (some raw), w')
      → decode_envelope sv raw ≡ some p
      → (allow ≡ false) ⊎ (allow ≡ r.allow_stale)
      → Aside s t
      → Fetched s r (judge_envelope sv allow p t)
  unfolding judge_envelope
  judge-Fetched s t r allow raw w w' p g d a h =
      judge_fresh-Judged s (tick t) r allow raw w w' p g d a h t.readings (fresh_until p.1) refl

  read_decoded-Fetched :
      (s t : Tiers V W) (r : CacheRequest) (allow : Bool) (raw : String) (w w' : W)
      (o : Option (V × Envelope))
      → sv.server_get r.key w ≡ (ok (some raw), w')
      → decode_envelope sv raw ≡ o
      → (allow ≡ false) ⊎ (allow ≡ r.allow_stale)
      → Aside s t
      → Fetched s r (read_decoded sv r.key allow o t)
  unfolding read_decoded l2_delete inc_metric
  read_decoded-Fetched s t r allow raw w w' none g d a h =
      let (_, (p, q)) =
        guarded-Answered sv false (λ _. true) false (sv.server_delete r.key)
          (inc_metric "cache_deserialize_error" t) in
      (p ∙ h.0, q ∙ h.1)
  read_decoded-Fetched s t r allow raw w w' (some p) g d a h =
      judge-Fetched s t r allow raw w w' p g d a h

  read_raw-Fetched :
      (s : Tiers V W) (r : CacheRequest) (allow : Bool) (m : Option String × Tiers V W)
      → (allow ≡ false) ⊎ (allow ≡ r.allow_stale)
      → Answered sv true (λ (a : Option String). a) none (sv.server_get r.key) s m
      → Fetched s r (read_raw sv r.key allow m)
  unfolding read_raw
  read_raw-Fetched s r allow (none, t) a h = h.1
  read_raw-Fetched s r allow (some raw, t) a (inl e, h) = absurd (false≢true (sym (ap is_some e)))
  read_raw-Fetched s r allow (some raw, t) a (inr (x, w, w', g, e), h) =
      read_decoded-Fetched s t r allow raw w w' (decode_envelope sv raw)
        (subst (λ y. sv.server_get r.key w ≡ (ok y, w')) (sym e) g) refl a h

  pub read_l2-Fetched :
      (s : Tiers V W) (r : CacheRequest) (allow : Bool)
      → (allow ≡ false) ⊎ (allow ≡ r.allow_stale)
      → Fetched s r (read_l2 sv r.key allow s)
  unfolding read_l2 l2_get
  read_l2-Fetched s r allow a =
      if_split (Fetched s r) sv.configured
        (λ _.
          read_raw-Fetched s r allow (l2_get sv r.key s) a
            (guarded-Answered sv true (λ (o : Option String). o) none (sv.server_get r.key) s))
        (λ _. (refl, refl))

module _ {V B W : Type 0} (sv : Service V B W) (producer : Act W V) where
  store_produced-Sourced :
      (s t : Tiers V W) (r : CacheRequest) (w : W) (m : Result V × W)
      → producer w ≡ m
      → Sourced sv s r producer (store_produced sv r m t)
  unfolding store_produced
  store_produced-Sourced s t r w (ok v, w') h = inr (inr (w, w', h))
  store_produced-Sourced s t r w (raise e, w') h = inl (w, w', h)

  produce-Sourced :
      (s t : Tiers V W) (r : CacheRequest) → Sourced sv s r producer (produce sv r producer t)
  unfolding produce
  produce-Sourced s t r =
      store_produced-Sourced s (inc_metric "cache_producer_call" t) r t.world (producer t.world)
        refl

  recheck_l2-Sourced :
      (s t : Tiers V W) (r : CacheRequest) (m : Result (Option (Hit V)) × Tiers V W)
      → Fetched sv t r m
      → Sourced sv s r producer (recheck_l2 sv r producer m)
  unfolding recheck_l2
  recheck_l2-Sourced s t r (raise e, u) h = inr (h.0.0, inr h.0.1)
  recheck_l2-Sourced s t r (ok none, u) h = produce-Sourced s u r
  recheck_l2-Sourced s t r (ok (some x), u) h = inr (inl h.0)

  -- The release of the lock does not touch the result.
  released :
      (s : Tiers V W) (r : CacheRequest) (m : Result V × Tiers V W) (t : Tiers V W)
      → Sourced sv s r producer m
      → Sourced sv s r producer (m.0, t)
  released s r (ok v, u) t h = h
  released s r (raise e, u) t h = h

  read_l1-absent :
      (key : String) (allow : Bool) (s : Tiers V W)
      → get_key key s.l1.store ≡ none
      → read_l1 sv key allow s ≡ (miss, record (tick s) { l1 = count_miss s.l1 })
  unfolding read_l1 get_detailed examine_entry
  read_l1-absent key allow s h = rw h refl

  fly-Sourced :
      (s t : Tiers V W) (r : CacheRequest)
      → get_key r.key t.l1.store ≡ none
      → Sourced sv s r producer (fly sv r producer t)
  unfolding fly recheck_l1
  fly-Sourced s t r h =
      let u = record t { flights = acquire_flight r.key t.flights } in
      let v = record (tick u) { l1 = count_miss u.l1 } in
      rw (read_l1-absent r.key false u h) (
        released s r (recheck_l2 sv r producer (read_l2 sv r.key false v)) _ (
          recheck_l2-Sourced s v r (read_l2 sv r.key false v)
            (read_l2-Fetched sv v r false (inl refl))))

  answer_l2-Sourced :
      (s t : Tiers V W) (r : CacheRequest) (m : Result (Option (Hit V)) × Tiers V W)
      → get_key r.key t.l1.store ≡ none
      → Fetched sv t r m
      → Sourced sv s r producer (answer_l2 sv r producer m)
  unfolding answer_l2 inc_metric
  answer_l2-Sourced s t r (raise e, u) n h = inr (h.0.0, inr h.0.1)
  answer_l2-Sourced s t r (ok none, u) n h =
      fly-Sourced s (inc_metric "cache_l2_miss" u) r
        (subst (λ (c : L1Cache V). get_key r.key c.store ≡ none) (sym h.0) n)
  answer_l2-Sourced s t r (ok (some x), u) n h = inr (inl h.0)

  answer_l1-Sourced :
      (s : Tiers V W) (r : CacheRequest) (n : ℕ) (l : Lookup V) (c : L1Cache V) (t : Tiers V W)
      → t.l1 ≡ c
      → Looked r.key r.allow_stale (sv.clock n) (get_key r.key s.l1.store) (l, c)
      → Sourced sv s r producer (answer_l1 sv r producer (l, t))
  unfolding answer_l1 inc_metric
  answer_l1-Sourced s r n miss c t e h =
      let u = inc_metric "cache_l1_miss" t in
      answer_l2-Sourced s u r (read_l2 sv r.key r.allow_stale u)
        (subst (λ (c : L1Cache V). get_key r.key c.store ≡ none) (sym e) h)
        (read_l2-Fetched sv u r r.allow_stale (inr refl))
  answer_l1-Sourced s r n type_error c t e h = inr (refl, inl h)
  answer_l1-Sourced s r n (hit true v m) c t e (x, p, q, h) = inl (x, n, p, q, h)
  answer_l1-Sourced s r n (hit false v m) c t e (x, p, q, h) = inl (x, n, p, q, h)

  uncached-Sourced :
      (s : Tiers V W) (r : CacheRequest) (w : W) (m : Result V × W)
      → producer w ≡ m
      → Sourced sv s r producer (uncached sv m s)
  uncached-Sourced s r w (ok v, w') h = inr (inr (w, w', h))
  uncached-Sourced s r w (raise e, w') h = inl (w, w', h)

  -- Whatever the server, the client and the texts in it do, `get_or_set` raises only what the
  -- producer has raised, or a TypeError, where the first tier held an entry for the key, or the
  -- server has answered with a valid envelope, with a timestamp to compare that is no number (a
  -- missing one is none such); and a value that it returns is the one that the first tier held for the key,
  -- not expired or, where that is allowed, within its stale window, or that of a valid envelope with
  -- which the server has answered, with the same bounds on its time, or what the producer has
  -- returned. No key may stand twice in the first tier.
  pub get_or_set-Sourced :
      (r : CacheRequest) (s : Tiers V W)
      → Distinct s.l1.store
      → Sourced sv s r producer (get_or_set sv r producer s)
  unfolding get_or_set read_l1 get_detailed
  get_or_set-Sourced r s d =
      let m =
        examine_entry r.key r.allow_stale (present_time sv s) (get_key r.key s.l1.store) s.l1 in
      if_split (Sourced sv s r producer) sv.enabled
        (λ _.
          answer_l1-Sourced s r s.readings m.0 m.1 (record (tick s) { l1 = m.1 }) refl
            (examine-Looked r.key r.allow_stale (present_time sv s) (get_key r.key s.l1.store) s.l1
              d refl))
        (λ _. uncached-Sourced s r s.world (producer s.world) refl)
