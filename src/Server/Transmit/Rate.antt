-- ===== src/Server/Transmit/Rate.antt =====
-- The range of the inter-packet delay, in ttp_accept_retransmit of tsunami-udp/server/protocol.c.
use tsunami_udp.Prelude.{◌≡◌, Bool, true, false, arith, ◌⊎◌, ==_iff, Bool-cases, inl, inr, refl}
use tsunami_udp.Protocol.{request_error_rate_type, Retransmission}
use tsunami_udp.Server.Transmit.{
  Floats, Parameter, Server, accept_retransmit, adjusted, in_range, fmin, fmax,
}

-- `<` on doubles is asymmetric, also with NaN.
module _ (fl : Floats) (param : Parameter)
    (asymmetric : (a b : fl.F) → fl.less a b ≡ true → fl.less b a ≡ false) where
  irreflexive : (a : fl.F) → fl.less a a ≡ false
  irreflexive a = ground (arith, asymmetric a a)

  fmin_not_above : (a c : fl.F) → fl.less c (fmin fl param a c) ≡ false
  unfolding fmin
  fmin_not_above a c = elim (Bool-cases (fl.less a c)) [
    | inl less ↦ rw less (asymmetric a c less)
    | inr not_less ↦ rw not_less (irreflexive c)
  ]

  -- The larger of `a` and `c`, when `a` is not above `limit`.
  fmax-bounds :
      (a c limit : fl.F)
      → fl.less limit a ≡ false
      → (fl.less (fmax fl param a c) c ≡ false)
        × ((fl.less limit (fmax fl param a c) ≡ false) ⊎ (fmax fl param a c ≡ c))
  unfolding fmax
  fmax-bounds a c limit h = elim (Bool-cases (fl.less c a)) [
    | inl less ↦ rw less (asymmetric c a less, inl h)
    | inr not_less ↦ rw not_less (irreflexive c, inr refl)
  ]

  -- With an asymmetric order on doubles, after an error report the delay is not below that of the
  -- target rate, and it is not above 10000 microseconds or it is that of the target rate.
  pub accept_retransmit-ipd :
      (m : Retransmission) (send : Bool) (s : Server fl param)
      → m.request_type ≡ request_error_rate_type
      → let ipd = (accept_retransmit fl param m send s).1.ipd_current in
        (fl.less ipd (fl.of_nat param.ipd_time) ≡ false)
        × ((fl.less (fl.of_nat 10000) ipd ≡ false) ⊎ (ipd ≡ fl.of_nat param.ipd_time))
  unfolding accept_retransmit in_range
  accept_retransmit-ipd m send s e =
      let type = ==_iff m.request_type request_error_rate_type in
      let wanted = adjusted fl param m.error_rate s.ipd_current in
      let top = fl.of_nat 10000 in
      rw (type.1 e) (
        fmax-bounds (fmin fl param wanted top) (fl.of_nat param.ipd_time) top
          (fmin_not_above wanted top))
