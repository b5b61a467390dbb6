-- ===== src/Inject/Consider/Cleared.antt =====
-- inject.py, `Injector.consider`: the conditions of an injection, as a record, and each step of the
-- decision where they hold.
use insteonrf.Common.{
  ◌∙◌, ap, ◌⊎◌, ap, ℕ, ◌<◌, ◌≡◌, Option, none, some, Bool, true, false, List, arith, refl, inl, inr,
  ltb, ok, ◌&&◌, length,
}
use insteonrf.Inject.Consider.{
  forget_old, consider, begin, admit, settle, rate, fire, packet_fault, mem_tier, too_soon,
  last_minute,
}
use insteonrf.Inject.Classify.{
  Reason, classify, Class, Tier, Injector, sender_of, is_own, is_unknown, is_reply, tier_of,
}
use insteonrf.Inject.Memory.{heard}
use insteonrf.Packet.Fields.{
  Packet, crc_ok, hops_ok, extended, ext_crc_ok, is_true, is_false, msg_type,
}
use insteonrf.Packet.Address.{Address}
use insteonrf.Fusion.{FusedEvent}
use insteonrf.Plm.{to_plm_bytes}

-- the packet's own checks
pub record Sound (inj : Injector) (ev : FusedEvent) : Type 0 where
  pub crc : crc_ok ev.packet ≡ some true
  pub index : is_false ev.packet.index_ok ≡ false
  pub hops : hops_ok ev.packet ≡ true
  pub ext : (extended ev.packet && is_false (ext_crc_ok ev.packet)) ≡ false
  pub corrected : ev.packet.corrected ≡ 0
  pub receivers : (ev.combined && ltb ev.combined_from inj.min_combined_receivers) ≡ false

is_true-some : (o : Option Bool) → is_true o ≡ true → o ≡ some true
is_true-some none h = ground (arith, h)
is_true-some (some true) h = refl
is_true-some (some false) h = cc

pub packet_fault-Sound :
    (inj : Injector) (ev : FusedEvent) → packet_fault inj ev ≡ none → Sound inj ev
unfolding packet_fault
packet_fault-Sound inj ev h = record {
  crc = is_true-some (crc_ok ev.packet) (ground arith);
  index = ground arith;
  hops = ground arith;
  ext = ground arith;
  corrected = ground arith;
  receivers = ground arith;
}

pub Class-cases :
    (c : Class) → ((why : Reason) × (c ≡ Class.refused why)) ⊎ ((t : Tier) × (c ≡ Class.tier t))
Class-cases (Class.refused why) = inl (why, refl)
Class-cases (Class.tier t) = inr (t, refl)

-- what an injection of `frame` for `sender` rests on
pub record Cleared (inj : Injector) (enabled : Bool) (ev : FusedEvent) (now : ℕ) (t : Tier)
    (sender : Address) (frame : List ℕ) : Type 0 where
  pub switch : enabled ≡ true
  pub tier : classify inj ev.packet ≡ Class.tier t
  pub allowed : mem_tier t inj.allow ≡ true
  pub from : sender_of ev.packet ≡ some sender
  pub reply : is_reply (msg_type ev.packet) ≡ false
  pub own : is_own inj.plm_addr sender ≡ false
  pub known : is_unknown inj.known_addrs sender ≡ false
  pub sound : Sound inj ev
  pub unheard : heard (forget_old inj.memory now) ev.key ev.last_seen ≡ false
  pub device : too_soon inj sender now ≡ false
  pub global : length (last_minute now inj.recent_injections) < inj.global_per_minute
  pub rendered : to_plm_bytes ev.packet true ≡ ok frame
  pub live : inj.shadow ≡ false

Sound-packet_fault : (inj : Injector) (ev : FusedEvent) → Sound inj ev → packet_fault inj ev ≡ none
unfolding packet_fault
Sound-packet_fault inj ev s =
    ground (arith, s.crc, s.index, s.hops, s.ext, s.corrected, s.receivers)

rate_cleared :
    (inj : Injector) (ev : FusedEvent) (t : Tier) (now : ℕ) (a : Address) (frame : List ℕ)
    → sender_of ev.packet ≡ some a
    → too_soon inj a now ≡ false
    → length inj.recent_injections < inj.global_per_minute
    → to_plm_bytes ev.packet true ≡ ok frame
    → rate inj ev t now ≡ fire inj ev t a frame now
unfolding rate
rate_cleared inj ev t now a frame e d g r = ground (arith, e, d, g, r)

pub settle_cleared :
    (inj : Injector) (ev : FusedEvent) (t : Tier) (now : ℕ)
    → heard inj.memory ev.key ev.last_seen ≡ false
    → settle inj ev t now ≡ rate inj (record ev { plm_saw_it = some false }) t now
unfolding settle
settle_cleared inj ev t now h = rw h refl

pub admit_cleared :
    (inj : Injector) (ev : FusedEvent) (t : Tier) (now : ℕ)
    → mem_tier t inj.allow ≡ true
    → Sound inj ev
    → admit inj ev t now ≡ settle inj ev t now
unfolding admit
admit_cleared inj ev t now h s = rw (h, Sound-packet_fault inj ev s) refl

pub consider_cleared :
    (inj : Injector) (ev : FusedEvent) (t : Tier) (now : ℕ)
    → classify (begin inj now) ev.packet ≡ Class.tier t
    → consider inj true ev now ≡ admit (begin inj now) ev t now
unfolding consider
consider_cleared inj ev t now h = rw h refl

classify-begin :
    (inj : Injector) (now : ℕ) (p : Packet) → classify (begin inj now) p ≡ classify inj p
unfolding classify begin tier_of
classify-begin inj now p = refl

-- the outcome of a cleared event
pub Cleared-consider :
    (inj : Injector) (enabled : Bool) (ev : FusedEvent) (now : ℕ) (t : Tier) (sender : Address)
    (frame : List ℕ)
    → Cleared inj enabled ev now t sender frame
    → consider inj enabled ev now
      ≡ fire (begin inj now) (record ev { plm_saw_it = some false }) t sender frame now
unfolding begin
Cleared-consider inj enabled ev now t sender frame c =
    ap (λ b. consider inj b ev now) c.switch
    ∙ consider_cleared inj ev t now (classify-begin inj now ev.packet ∙ c.tier)
    ∙ admit_cleared (begin inj now) ev t now c.allowed (record {
      crc = c.sound.crc;
      index = c.sound.index;
      hops = c.sound.hops;
      ext = c.sound.ext;
      corrected = c.sound.corrected;
      receivers = c.sound.receivers;
    })
    ∙ settle_cleared (begin inj now) ev t now c.unheard
    ∙ rate_cleared (begin inj now) (record ev { plm_saw_it = some false }) t now sender frame c.from
        c.device c.global c.rendered

pub fire_live :
    (inj : Injector) (ev : FusedEvent) (t : Tier) (a : Address) (frame : List ℕ) (now : ℕ)
    → inj.shadow ≡ false
    → (fire inj ev t a frame now).decision.inject ≡ true
unfolding fire
fire_live inj ev t a frame now h = rw h refl
