-- ===== src/Bind/Prepare/Fixed.antt =====
-- portcfg.c: `svz_portcfg_prepare` leaves a prepared port configuration, and what identifies any.
use serveez.Base.{
  Bool-cases, ap, arith, false, if◌then◌else◌, inl, inr, refl, set, sym, true, ℕ, ◌-◌, ◌<◌, ◌∙◌,
  ◌≡◌, ◌≢◌,
}
use serveez.Base.Int.{leb_ℤ, ltb_ℤ, pos, ℤ}
use serveez.Bind.{PortCfg, Protocol, icmp, pipe, raw, tcp, udp, unset}
use serveez.Bind.Prepare.{
  BacklogWithin, DetectionWithin, IsPrepared, Within, backlog_in_range, buffer_in_range,
  detection_in_range, detects, in_range-Within, max_buf_size, prepare-IsPrepared,
  svz_portcfg_prepare,
}

buffer_fixed : (p : Protocol) (z : ℤ) → Within (max_buf_size - 1) z → buffer_in_range p z ≡ z
buffer_fixed p z h =
    let (n, e, positive, fits) = h in
    ap (buffer_in_range p) e ∙ at n (ground arith) (ground arith) ∙ sym e
  where
    at :
        (n : ℕ)
        → leb_ℤ (pos n) 0 ≡ false
        → ltb_ℤ (pos n) max_buf_size ≡ true
        → buffer_in_range p (pos n) ≡ pos n
    at n e f = rw (e, f) refl

backlog_fixed :
    (somaxconn : ℕ) (p : Protocol) → BacklogWithin somaxconn p → backlog_in_range somaxconn p ≡ p
backlog_fixed m unset h = refl
backlog_fixed m (tcp port n backlog) h = ap (tcp port n) (in_range-Within m backlog h)
backlog_fixed m (udp port n) h = refl
backlog_fixed m (icmp n type) h = refl
backlog_fixed m (raw n) h = refl
backlog_fixed m (pipe recv send) h = refl

detection_fixed :
    (p : Protocol) (limit : ℕ) (z : ℤ)
    → DetectionWithin p limit z
    → detection_in_range p limit z ≡ z
detection_fixed p limit z h = elim (Bool-cases (detects p)) [
  | inl e ↦ rw e (in_range-Within limit z (h e))
  | inr e ↦ rw e refl
]

freq_fixed : (z : ℤ) → leb_ℤ z 0 ≡ false → (if leb_ℤ z 0 then pos 100 else z) ≡ z
freq_fixed z h = rw h refl

-- `svz_portcfg_prepare` changes nothing in a port configuration that is prepared.
prepare_fixed :
    (somaxconn : ℕ) (port : PortCfg)
    → IsPrepared somaxconn port
    → svz_portcfg_prepare somaxconn port ≡ port
unfolding svz_portcfg_prepare
prepare_fixed m port h i = record port {
  protocol = backlog_fixed m port.protocol h.backlog i;
  detection_fill = detection_fixed port.protocol 16 port.detection_fill h.fill i;
  detection_wait = detection_fixed port.protocol 30 port.detection_wait h.wait i;
  send_buffer_size = buffer_fixed port.protocol port.send_buffer_size h.send i;
  recv_buffer_size = buffer_fixed port.protocol port.recv_buffer_size h.recv i;
  connect_freq = freq_fixed port.connect_freq h.freq i;
}

-- Preparing a port configuration with a protocol twice is preparing it once.
pub prepare_twice :
    (somaxconn : ℕ) (port : PortCfg)
    → 0 < somaxconn
    → port.protocol ≢ unset
    → svz_portcfg_prepare somaxconn (svz_portcfg_prepare somaxconn port)
      ≡ svz_portcfg_prepare somaxconn port
prepare_twice m port positive set =
    prepare_fixed m (svz_portcfg_prepare m port) (prepare-IsPrepared m port positive set)
