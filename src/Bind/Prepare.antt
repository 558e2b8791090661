-- ===== src/Bind/Prepare.antt =====
-- portcfg.c: `svz_portcfg_prepare`, which puts default values in place of those out of range. The
-- system's SOMAXCONN is the parameter `somaxconn`.
pub mod Fixed
pub mod Same
use serveez.Base.{
  Bool, Bool-cases, Option, arith, false, if◌then◌else◌, inl, inr, leb_cases, ltb_cases, none, not,
  refl, set, some, sym, true, ℕ, ◌-◌, ◌<◌, ◌||◌, ◌∙◌, ◌≡◌, ◌≢◌, ◌≤◌,
}
use serveez.Base.Int.{leb_ℤ, ltb_ℤ, negsuc, pos, ℤ}
use serveez.Bind.{PortCfg, Protocol, icmp, pipe, raw, tcp, udp, unset}

abbrev pub sock_max_detection_fill : ℕ
sock_max_detection_fill = 16

abbrev pub sock_max_detection_wait : ℕ
sock_max_detection_wait = 30

-- RECV_BUF_SIZE and SEND_BUF_SIZE, which are the same.
abbrev pub stream_buf_size : ℕ
stream_buf_size = 8192

abbrev pub max_buf_size : ℕ
max_buf_size = 16777216

abbrev pub svz_udp_buf_size : ℕ
svz_udp_buf_size = 262240

abbrev pub icmp_buf_size : ℕ
icmp_buf_size = 262280

-- A value that is not in 1 ... `limit` is replaced by the default value.
abbrev pub in_range : ℕ → ℕ → ℤ → ℤ
in_range limit default z = if leb_ℤ z 0 || not (leb_ℤ z limit) then pos default else z

-- The default size of a buffer; none for a configuration without a protocol.
abbrev pub buf_size : Protocol → Option ℕ
buf_size unset = none
buf_size (tcp port n backlog) = some stream_buf_size
buf_size (udp port n) = some svz_udp_buf_size
buf_size (icmp n type) = some icmp_buf_size
buf_size (raw n) = some icmp_buf_size
buf_size (pipe recv send) = some stream_buf_size

-- A size that is not in 1 ... MAX_BUF_SIZE - 1 is replaced, if the protocol has a default one.
abbrev pub buffer_in_range : Protocol → ℤ → ℤ
buffer_in_range protocol z =
    if leb_ℤ z 0 || not (ltb_ℤ z max_buf_size)
    then elim (buf_size protocol) [ none ↦ z | some n ↦ pos n ]
    else z

abbrev pub backlog_in_range : ℕ → Protocol → Protocol
backlog_in_range somaxconn protocol = elim protocol [
  | tcp port n backlog ↦ tcp port n (in_range somaxconn somaxconn backlog)
  | p ↦ p
]

-- The protocols whose connections are detected by what they send.
abbrev pub detects : Protocol → Bool
detects protocol = elim protocol [ tcp port n backlog ↦ true | pipe recv send ↦ true | _ ↦ false ]

abbrev pub detection_in_range : Protocol → ℕ → ℤ → ℤ
detection_in_range protocol limit z = if detects protocol then in_range limit limit z else z

unfoldable pub svz_portcfg_prepare : ℕ → PortCfg → PortCfg
svz_portcfg_prepare somaxconn port = record port {
  protocol = backlog_in_range somaxconn port.protocol;
  detection_fill = detection_in_range port.protocol sock_max_detection_fill port.detection_fill;
  detection_wait = detection_in_range port.protocol sock_max_detection_wait port.detection_wait;
  send_buffer_size = buffer_in_range port.protocol port.send_buffer_size;
  recv_buffer_size = buffer_in_range port.protocol port.recv_buffer_size;
  connect_freq = if leb_ℤ port.connect_freq 0 then pos 100 else port.connect_freq;
}

-- The number is in `1 ... limit`.
abbrev pub Within : ℕ → ℤ → Type 0
Within limit z = (n : ℕ) × (z ≡ pos n) × (0 < n) × (n ≤ limit)

in_range_lem : (limit : ℕ) (z : ℤ) → 0 < limit → Within limit (in_range limit limit z)
in_range_lem limit (negsuc k) h = (limit, refl, h, omega arith)
in_range_lem limit (pos k) h = elim (leb_cases k 0) [
  | inl (e, small) ↦ rw e (limit, refl, h, omega arith)
  | inr (e, positive) ↦ elim (leb_cases k limit) [
    | inl (f, fits) ↦ rw (e, f) (k, refl, positive, fits)
    | inr (f, large) ↦ rw (e, f) (limit, refl, h, omega arith)
  ]
]

pub in_range-Within : (limit : ℕ) (z : ℤ) → Within limit z → in_range limit limit z ≡ z
in_range-Within limit z h = let (n, e, positive, fits) = h in rw e (at n positive fits)
  where
    at : (n : ℕ) → 0 < n → n ≤ limit → in_range limit limit (pos n) ≡ pos n
    at n positive fits = ground arith

buffer_lem :
    (p : Protocol) (n : ℕ) (z : ℤ)
    → buf_size p ≡ some n
    → 0 < n
    → n < max_buf_size
    → Within (max_buf_size - 1) (buffer_in_range p z)
buffer_lem p n (negsuc k) e positive fits = rw e (n, refl, positive, omega arith)
buffer_lem p n (pos k) e positive fits = elim (leb_cases k 0) [
  | inl (f, small) ↦ rw (f, e) (n, refl, positive, omega arith)
  | inr (f, above) ↦ elim (ltb_cases k max_buf_size) [
    | inl (g, below) ↦ rw (f, g) (k, refl, above, omega arith)
    | inr (g, large) ↦ rw (f, g, e) (n, refl, positive, omega arith)
  ]
]

-- The values of a configuration with a protocol, as `svz_portcfg_prepare` leaves them.
abbrev pub BacklogWithin : ℕ → Protocol → Type 0
BacklogWithin somaxconn unset = ⊥
BacklogWithin somaxconn (tcp port n backlog) = Within somaxconn backlog
BacklogWithin somaxconn (udp port n) = Unit
BacklogWithin somaxconn (icmp n type) = Unit
BacklogWithin somaxconn (raw n) = Unit
BacklogWithin somaxconn (pipe recv send) = Unit

abbrev pub DetectionWithin : Protocol → ℕ → ℤ → Type 0
DetectionWithin protocol limit z = detects protocol ≡ true → Within limit z

pub record IsPrepared (somaxconn : ℕ) (port : PortCfg) : Type 0 where
  pub backlog : BacklogWithin somaxconn port.protocol
  pub fill : DetectionWithin port.protocol sock_max_detection_fill port.detection_fill
  pub wait : DetectionWithin port.protocol sock_max_detection_wait port.detection_wait
  pub send : Within (max_buf_size - 1) port.send_buffer_size
  pub recv : Within (max_buf_size - 1) port.recv_buffer_size
  pub freq : leb_ℤ port.connect_freq 0 ≡ false

buf_size_lem :
    (p : Protocol) → p ≢ unset → (n : ℕ) × (buf_size p ≡ some n) × (0 < n) × (n < max_buf_size)
buf_size_lem unset h = absurd (h refl)
buf_size_lem (tcp port n backlog) h = (stream_buf_size, refl, omega arith, omega arith)
buf_size_lem (udp port n) h = (svz_udp_buf_size, refl, omega arith, omega arith)
buf_size_lem (icmp n type) h = (icmp_buf_size, refl, omega arith, omega arith)
buf_size_lem (raw n) h = (icmp_buf_size, refl, omega arith, omega arith)
buf_size_lem (pipe recv send) h = (stream_buf_size, refl, omega arith, omega arith)

backlog_lem :
    (somaxconn : ℕ) (p : Protocol)
    → 0 < somaxconn
    → p ≢ unset
    → BacklogWithin somaxconn (backlog_in_range somaxconn p)
      × (detects (backlog_in_range somaxconn p) ≡ detects p)
backlog_lem m unset positive h = absurd (h refl)
backlog_lem m (tcp port n backlog) positive h = (in_range_lem m backlog positive, refl)
backlog_lem m (udp port n) positive h = (tt, refl)
backlog_lem m (icmp n type) positive h = (tt, refl)
backlog_lem m (raw n) positive h = (tt, refl)
backlog_lem m (pipe recv send) positive h = (tt, refl)

detection_lem :
    (p : Protocol) (limit : ℕ) (z : ℤ)
    → 0 < limit
    → DetectionWithin p limit (detection_in_range p limit z)
detection_lem p limit z h e = rw e (in_range_lem limit z h)

freq_lem : (z : ℤ) → leb_ℤ (if leb_ℤ z 0 then pos 100 else z) 0 ≡ false
freq_lem z = elim (Bool-cases (leb_ℤ z 0)) [ inl e ↦ rw e refl | inr e ↦ rw (e, e) refl ]

-- For a port configuration with a protocol, whatever its numbers are: after `svz_portcfg_prepare` the
-- TCP backlog is in 1 ... SOMAXCONN; for TCP and pipes, `detection_fill` is in 1 ... 16 and
-- `detection_wait` in 1 ... 30; both buffer sizes are in 1 ... MAX_BUF_SIZE - 1; `connect_freq` is
-- positive.
pub prepare-IsPrepared :
    (somaxconn : ℕ) (port : PortCfg)
    → 0 < somaxconn
    → port.protocol ≢ unset
    → IsPrepared somaxconn (svz_portcfg_prepare somaxconn port)
unfolding svz_portcfg_prepare
prepare-IsPrepared m port positive set =
    let (n, size, some_size, small) = buf_size_lem port.protocol set in
    let (bounded, same) = backlog_lem m port.protocol positive set in
    record {
      backlog = bounded;
      fill = λ e. detection_lem port.protocol 16 port.detection_fill (omega arith) (sym same ∙ e);
      wait = λ e. detection_lem port.protocol 30 port.detection_wait (omega arith) (sym same ∙ e);
      send = buffer_lem port.protocol n port.send_buffer_size size some_size small;
      recv = buffer_lem port.protocol n port.recv_buffer_size size some_size small;
      freq = freq_lem port.connect_freq;
    }
