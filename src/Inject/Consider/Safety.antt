-- ===== src/Inject/Consider/Safety.antt =====
-- inject.py, `Injector.consider`: the conditions of an injection.
use insteonrf.Common.{
  ◌∙◌, ◌↔◌, ap, Result-cases, ap, ℕ, ◌<◌, ◌≡◌, some, Bool, true, false, List, arith, inl, inr, ok,
  Bool-cases, Option-cases, length,
}
use insteonrf.Inject.Consider.{
  consider, begin, no_, admit, settle, rate, fire, packet_fault, mem_tier, too_soon,
}
use insteonrf.Inject.Classify.{
  classify, Class, Tier, Injector, sender_of, is_own, is_unknown, is_reply, tier_of,
}
use insteonrf.Inject.Memory.{heard}
use insteonrf.Packet.Fields.{Packet, msg_type}
use insteonrf.Packet.Address.{Address}
use insteonrf.Fusion.{FusedEvent}
use insteonrf.Plm.{to_plm_bytes}
use insteonrf.Inject.Consider.Cleared.{
  Sound, packet_fault-Sound, Class-cases, Cleared, Cleared-consider, fire_live,
}

-- what `fire` needs
pub record Fired (inj : Injector) (ev : FusedEvent) (now : ℕ) (t : Tier) (frame : List ℕ)
    (sender : Address) : Type 0 where
  pub from : sender_of ev.packet ≡ some sender
  pub live : inj.shadow ≡ false
  pub device : too_soon inj sender now ≡ false
  pub global : length inj.recent_injections < inj.global_per_minute
  pub rendered : to_plm_bytes ev.packet true ≡ ok frame

fire-inject :
    (inj : Injector) (ev : FusedEvent) (t : Tier) (a : Address) (frame : List ℕ) (now : ℕ)
    → (fire inj ev t a frame now).decision.inject ≡ true
    → inj.shadow ≡ false
unfolding fire
fire-inject inj ev t a frame now h = ground arith

rate-inject :
    (inj : Injector) (ev : FusedEvent) (t : Tier) (now : ℕ)
    → (rate inj ev t now).decision.inject ≡ true
    → (frame : List ℕ) × (sender : Address) × Fired inj ev now t frame sender
unfolding rate no_
rate-inject inj ev t now h = elim (Option-cases (sender_of ev.packet)) [
  | inl e ↦ absurd (ground (arith, e))
  | inr e ↦ elim (Result-cases (to_plm_bytes ev.packet true)) [
    | inl bad ↦ absurd (ground (arith, e.1, bad.1))
    | inr good ↦ (
      good.0,
      e.0,
      record {
        from = e.1;
        live = ground (arith, e.1, good.1, fire-inject inj ev t e.0 good.0 now);
        device = ground (arith, e.1, good.1);
        global = ground (arith, e.1, good.1);
        rendered = good.1;
      },
    )
  ]
]

settle-inject :
    (inj : Injector) (ev : FusedEvent) (t : Tier) (now : ℕ)
    → (settle inj ev t now).decision.inject ≡ true
    → (heard inj.memory ev.key ev.last_seen ≡ false)
      × (frame : List ℕ) × (sender : Address) × Fired inj
          (record ev { plm_saw_it = some false })
          now
          t
          frame
          sender
unfolding settle no_
settle-inject inj ev t now h = elim (Bool-cases (heard inj.memory ev.key ev.last_seen)) [
  | inl e ↦ absurd (ground (arith, e))
  | inr e ↦
      let r = rate-inject inj (record ev { plm_saw_it = some false }) t now (ground (arith, e)) in
      (e, r.0, r.1, r.2)
]

admit-inject :
    (inj : Injector) (ev : FusedEvent) (t : Tier) (now : ℕ)
    → (admit inj ev t now).decision.inject ≡ true
    → (mem_tier t inj.allow ≡ true) × Sound inj ev × ((settle inj ev t now).decision.inject ≡ true)
unfolding admit no_
admit-inject inj ev t now h = elim (Option-cases (packet_fault inj ev)) [
  | inl e ↦ (ground (arith, e), packet_fault-Sound inj ev e, ground (arith, e))
  | inr e ↦ absurd (ground (arith, e.1))
]

classify-tier :
    (inj : Injector) (p : Packet) (t : Tier) (sender : Address)
    → classify inj p ≡ Class.tier t
    → sender_of p ≡ some sender
    → (is_reply (msg_type p) ≡ false)
      × (is_own inj.plm_addr sender ≡ false)
      × (is_unknown inj.known_addrs sender ≡ false)
unfolding classify
classify-tier inj p t sender h e =
    (ground (arith, h, e), ground (arith, h, e), ground (arith, h, e))

consider-inject_cases :
    (inj : Injector) (enabled : Bool) (ev : FusedEvent) (now : ℕ)
    → (consider inj enabled ev now).decision.inject ≡ true
    → (enabled ≡ true)
      × (t : Tier) × (classify (begin inj now) ev.packet ≡ Class.tier t)
      × ((admit (begin inj now) ev t now).decision.inject ≡ true)
unfolding consider no_
consider-inject_cases inj enabled ev now h =
    elim (Class-cases (classify (begin inj now) ev.packet)) [
      | inl e ↦ absurd (ground (arith, e.1, h))
      | inr e ↦ (ground (arith, h), e.0, e.1, ground (arith, e.1, h))
    ]

pub consider-inject :
    (inj : Injector) (enabled : Bool) (ev : FusedEvent) (now : ℕ)
    → (consider inj enabled ev now).decision.inject ≡ true
    → (t : Tier) × (sender : Address) × (frame : List ℕ) × Cleared inj enabled ev now t sender frame
unfolding begin classify tier_of
consider-inject inj enabled ev now h =
    let c = consider-inject_cases inj enabled ev now h in
    let a = admit-inject (begin inj now) ev c.1 now c.3 in
    let s = settle-inject (begin inj now) ev c.1 now a.2 in
    let f = s.3 in
    let k = classify-tier (begin inj now) ev.packet c.1 s.2 c.2 f.from in
    (
      c.1,
      s.2,
      s.1,
      record {
        switch = c.0;
        tier = c.2;
        allowed = a.0;
        from = f.from;
        reply = k.0;
        own = k.1;
        known = k.2;
        sound = record {
          crc = a.1.crc;
          index = a.1.index;
          hops = a.1.hops;
          ext = a.1.ext;
          corrected = a.1.corrected;
          receivers = a.1.receivers;
        };
        unheard = s.0;
        device = f.device;
        global = f.global;
        rendered = f.rendered;
        live = f.live;
      },
    )

-- `consider` injects exactly the cleared events: the switch is on and shadow mode off; the packet
-- is classified into an allowed tier, is no reply, and has a sender that is not the modem and not
-- unknown where a list of devices is given; its CRC passes, its counters were not rejected, its
-- hop counts are possible, its extended data CRC did not fail, no bit was repaired, and a combined
-- packet comes from enough receivers; the modem did not report it within the window; neither limit
-- on the rate is reached; and it has a frame.
pub consider-inject_iff :
    (inj : Injector) (enabled : Bool) (ev : FusedEvent) (now : ℕ)
    → ((consider inj enabled ev now).decision.inject ≡ true) ↔ (
        (t : Tier) × (sender : Address) × (frame : List ℕ) × Cleared inj enabled ev now t sender
          frame)
unfolding begin
consider-inject_iff inj enabled ev now = (
  consider-inject inj enabled ev now,
  λ c.
      ap (λ o. o.decision.inject) (Cleared-consider inj enabled ev now c.0 c.1 c.2 c.3)
      ∙ fire_live (begin inj now) (record ev { plm_saw_it = some false }) c.0 c.1 c.2 now c.3.live,
)
