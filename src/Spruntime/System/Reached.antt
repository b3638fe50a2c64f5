-- ===== src/Spruntime/System/Reached.antt =====
-- What holds after any number of steps, in any order.
use service_provider_otel_co.Base.{
  ◌≡◌, refl, inl, inr, false, Bool-cases, Option, none, some, List, [], ◌∷◌, ◌++◌, All, Result, ok,
  err, arith, Keeps,
}
use mathlib.Core.Path.{subst}
use service_provider_otel_co.Kube.Objects.{ObjectKey}
use service_provider_otel_co.Kube.Client.{Runtime, Call}
use service_provider_otel_co.Spruntime.Api.{ServiceProviderApi, ProviderConfigApi}
use service_provider_otel_co.Spruntime.Reconciler.{SpReconciler}
use service_provider_otel_co.Spruntime.Reconciler.Granted.{GrantedKeeps, reconcile_granted}
use service_provider_otel_co.Spruntime.ConfigEvents
use service_provider_otel_co.Spruntime.ConfigEvents.{Channel}
use service_provider_otel_co.Spruntime.ConfigEvents.Published.{
  live, map_event-stores, reconcile-sends,
}
use service_provider_otel_co.Spruntime.System.{
  System, loaded, Step, config_read, event_handled, object_served, world_changed, started, Steps,
  here, step,
}

module _ {rt : Runtime} {api : ServiceProviderApi} {pcs : ProviderConfigApi}
    (r : SpReconciler rt api pcs) (get : ObjectKey → Call rt pcs.Config) where
  -- A config that some read returned, and that was not in deletion then.
  abbrev pub IsLive : Option pcs.Config → Type 0
  IsLive none = Unit
  IsLive (some pc) =
      (pcs.is_deleted pc ≡ false) × (req : ObjectKey) × (w : rt.World) × ((get req w).0 ≡ ok pc)

  -- What the cache comes to hold when the channel is empty.
  abbrev pub latest : Channel pcs → Option pcs.Config → Option pcs.Config
  latest [] c = c
  latest (e ∷ es) c = latest es e

  pub record Inv (P : rt.World → Type 0) (s : System rt pcs) : Type 0 where
    pub keeps : P s.world
    pub channel_live : All IsLive s.channel
    pub cache_live : IsLive s.cache

  live-IsLive : (req : ObjectKey) (w : rt.World) → IsLive (live pcs (get req w).0)
  live-IsLive req w = go (get req w).0 refl
    where
      go : (found : Result rt.Error pcs.Config) → (get req w).0 ≡ found → IsLive (live pcs found)
      go (err e) is = tt
      go (ok pc) is = elim (Bool-cases (pcs.is_deleted pc)) [
        | inl d ↦ rw d tt
        | inr d ↦ rw d (d, req, w, is)
      ]

  latest-append : (es : Channel pcs) (e c : Option pcs.Config) → latest (es ++ e ∷ []) c ≡ e
  latest-append [] e c = refl
  latest-append (x ∷ es) e c = latest-append es e x

  All-snoc :
      (es : Channel pcs) (e : Option pcs.Config)
      → All IsLive es
      → IsLive e
      → All IsLive (es ++ e ∷ [])
  All-snoc [] e hs h = (h, tt)
  All-snoc (x ∷ es) e hs h = (hs.0, All-snoc es e hs.1 h)

  module _ {outside : rt.World → rt.World → Type 0} where
    Step-in_order :
        {s t : System rt pcs}
        → Step r get outside s t
        → latest s.channel s.cache ≡ s.last_read
        → latest t.channel t.cache ≡ t.last_read
    Step-in_order {s} (config_read req) i =
        rw
          (reconcile-sends pcs (api.object_kind r.empty_obj) r.onboarding get req
            (record { obj = s.channel; world = s.world }))
          (latest-append s.channel _ s.cache)
    Step-in_order {s} (event_handled e rest is) i =
        rw
          (map_event-stores pcs (api.object_kind r.empty_obj) r.onboarding e
            (record { obj = s.cache; world = s.world }))
          (subst (λ es. latest es s.cache ≡ s.last_read) is i)
    Step-in_order (object_served req) i = i
    Step-in_order (world_changed w o) i = i

    pub Steps-in_order :
        {s t : System rt pcs}
        → Steps r get outside s t
        → latest s.channel s.cache ≡ s.last_read
        → latest t.channel t.cache ≡ t.last_read
    Steps-in_order here i = i
    Steps-in_order (step ss st) i = Step-in_order st (Steps-in_order ss i)

  module _ (P : rt.World → Type 0) (outside : rt.World → rt.World → Type 0)
      (granted : (c : Option pcs.Config) → IsLive c → GrantedKeeps (loaded r get c) P)
      (reads : (req : ObjectKey) → Keeps P (get req))
      (lists : Keeps P (r.onboarding.list (api.object_kind r.empty_obj)))
      (others : (w w' : rt.World) → outside w w' → P w → P w') where
    read-Keeps :
        (req : ObjectKey) (sent : Channel pcs) (w : rt.World)
        → P w
        → P
            (ConfigEvents.reconcile {rt = rt} pcs get req
              (record { obj = sent; world = w })).1.world
    unfolding ConfigEvents.reconcile ConfigEvents.send_found
    read-Keeps req sent w p = go (get req w).0 (get req w).1 ((reads req).at w p)
      where
        go :
            (found : Result rt.Error pcs.Config) (t : rt.World)
            → P t
            → P
                (ConfigEvents.send_found {rt = rt} pcs found
                  (record { obj = sent; world = t })).1.world
        go (err e) t p = ground arith
        go (ok pc) t p = ground arith

    event-Keeps :
        (e cache : Option pcs.Config) (w : rt.World)
        → P w
        → P
            (ConfigEvents.map_event {rt = rt} pcs
              (api.object_kind r.empty_obj)
              r.onboarding
              e
              (record { obj = cache; world = w })).1.world
    unfolding ConfigEvents.map_event ConfigEvents.listed
    event-Keeps e cache w p =
        go (r.onboarding.list (api.object_kind r.empty_obj) w).0
          (r.onboarding.list (api.object_kind r.empty_obj) w).1 (lists.at w p)
      where
        go :
            (found : Result rt.Error (List ObjectKey)) (t : rt.World)
            → P t
            → P (ConfigEvents.listed {rt = rt} pcs found (record { obj = e; world = t })).1.world
        go (err f) t p = p
        go (ok reqs) t p = p

    Step-Inv : {s t : System rt pcs} → Step r get outside s t → Inv P s → Inv P t
    Step-Inv {s} (config_read req) i = record {
      keeps = read-Keeps req s.channel s.world i.keeps;
      channel_live =
          rw
            (reconcile-sends pcs (api.object_kind r.empty_obj) r.onboarding get req
              (record { obj = s.channel; world = s.world }))
            (All-snoc s.channel _ i.channel_live (live-IsLive req s.world));
      cache_live = i.cache_live;
    }
    Step-Inv {s} (event_handled e rest is) i =
        let (first, others) = subst (λ es. All IsLive es) is i.channel_live in
        record {
          keeps = event-Keeps e s.cache s.world i.keeps;
          channel_live = others;
          cache_live =
              rw
                (map_event-stores pcs (api.object_kind r.empty_obj) r.onboarding e
                  (record { obj = s.cache; world = s.world }))
                first;
        }
    Step-Inv {s} (object_served req) i = record {
      keeps =
          reconcile_granted (loaded r get s.cache) (granted s.cache i.cache_live) req s.world
            i.keeps;
      channel_live = i.channel_live;
      cache_live = i.cache_live;
    }
    Step-Inv {s} (world_changed w o) i = record {
      keeps = others s.world w o i.keeps;
      channel_live = i.channel_live;
      cache_live = i.cache_live;
    }

    -- From a start with nothing read, after any steps in any order: every config in the cache or on the
    -- channel is one that a read returned and that was not in deletion then. So a predicate on the
    -- clusters holds on, if the domain's methods keep it when they are called with such a config and with
    -- access to the clusters, and if the other calls, and what happens outside, keep it.
    pub Steps-Inv :
        (w : rt.World) {s : System rt pcs} → P w → Steps r get outside (started r get w) s → Inv P s
    Steps-Inv w p here = record { keeps = p; channel_live = tt; cache_live = tt }
    Steps-Inv w p (step ss st) = Step-Inv st (Steps-Inv w p ss)
