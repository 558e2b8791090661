-- ===== src/Raw/Header.antt =====
-- raw-socket.c: reading an IP header, its checksum, and the test of a header. Memory is a list of
-- bytes, `big` the byte order of the host, under which `ntohs` and `htons` are one function.
use mathlib.Core.Option
use serveez.Base.{
  Bool, List, Option, [], arith, drop, false, get_or, if◌then◌else◌, ltb, none, not, set, some, suc,
  take, true, zero, ℕ, ◌%◌, ◌*◌, ◌+◌, ◌-◌, ◌/◌, ◌<◌, ◌==◌, ◌^◌, ◌↔◌, ◌∷◌, ◌≡◌, ◌≤◌,
}
use serveez.Nut.Bytes.{bswap_16, htons, load_16, load_32, order_s}

-- `svz_ip_header_t`
pub record IpHeader : Type 0 where
  pub version_length : ℕ
  pub tos : ℕ
  pub size : ℕ
  pub ident : ℕ
  pub frag_offset : ℕ
  pub ttl : ℕ
  pub protocol : ℕ
  pub checksum : ℕ
  pub src : ℕ
  pub dst : ℕ

abbrev pub ip_version_4 : ℕ
ip_version_4 = 4

abbrev pub ip_checksum_ofs : ℕ
ip_checksum_ofs = 10

abbrev pub icmp_protocol : ℕ
icmp_protocol = 1

abbrev pub ip_hdr_version : IpHeader → ℕ
ip_hdr_version hdr = hdr.version_length / 16 % 16

abbrev pub ip_hdr_length : IpHeader → ℕ
ip_hdr_length hdr = hdr.version_length % 16 * 4

-- From memory of at least 20 bytes.
abbrev pub unpack_header : Bool → List ℕ → IpHeader
unpack_header big m = record {
  version_length = get_or m 0 0;
  tos = get_or m 1 0;
  size = htons big (load_16 big (drop 2 m));
  ident = htons big (load_16 big (drop 4 m));
  frag_offset = htons big (load_16 big (drop 6 m));
  ttl = get_or m 8 0;
  protocol = get_or m 9 0;
  checksum = htons big (load_16 big (drop 10 m));
  src = load_32 big (drop 12 m);
  dst = load_32 big (drop 16 m);
}

-- The loop over the words and the left-over byte of `data`, in an `unsigned` of 32 bits.
-- The two bytes of a word do not overlap, so the sum stands for `|`.
unfoldable pub add_words : ℕ → List ℕ → ℕ
add_words checksum [] = checksum
add_words checksum (a ∷ []) = (checksum + a) % 2 ^ 32
add_words checksum (a ∷ (b ∷ m)) = add_words ((checksum + (a + b * 2 ^ 8)) % 2 ^ 32) m

-- The loop that folds the sum to 16 bits, on fuel, `none` if it is used up.
unfoldable pub fold_checksum : ℕ → ℕ → Option ℕ
fold_checksum zero checksum = none
fold_checksum (suc fuel) checksum = elim (checksum / 2 ^ 16 == 0) [
  | true ↦ some checksum
  | false ↦ fold_checksum fuel ((checksum % 2 ^ 16 + checksum / 2 ^ 16) % 2 ^ 32)
]

-- The checksum of the first `len` bytes.
unfoldable pub svz_raw_ip_checksum : ℕ → Bool → List ℕ → ℕ → Option ℕ
unfolding fold_checksum add_words
svz_raw_ip_checksum fuel big m len =
    Option.map (λ sum. htons big ((2 ^ 32 - 1 - sum) % 2 ^ 16))
      (fold_checksum fuel (add_words 0 (take len m)))

-- The length of a valid header, `none` for -1, and the memory with the checksum reset. The
-- recalculated checksum is only compared for a message in the log.
unfoldable pub svz_raw_check_ip_header : Bool → List ℕ → ℕ → Option ℕ × List ℕ
svz_raw_check_ip_header big m len =
    let hdr = unpack_header big m in
    (
      if not (ip_hdr_version hdr == ip_version_4)
          then none
          else if ltb len (ip_hdr_length hdr)
          then none
          else if ltb hdr.size len
          then none
          else if not (hdr.protocol == icmp_protocol)
          then none
          else some (ip_hdr_length hdr),
      set (set m ip_checksum_ofs 0) (ip_checksum_ofs + 1) 0,
    )

read_big :
    (big : Bool) (a b : ℕ) (m : List ℕ)
    → a < 256
    → b < 256
    → htons big (load_16 big (a ∷ (b ∷ m))) ≡ a * 256 + b
unfolding order_s load_16 bswap_16
read_big true a b m ha hb = omega arith
read_big false a b m ha hb = omega arith

-- For a header of bytes, on a host of either byte order: the routine accepts it with the length
-- `n` exactly if the version is 4, `n` is the length field in bytes and at most `len`, the total
-- length is at least `len`, and the protocol is ICMP. The checksum plays no part: a header with a wrong
-- one is accepted, against the comment at the routine.
pub check_ip_header_iff :
    (big : Bool) (vl tos hi lo a b c d ttl protocol : ℕ) (m : List ℕ) (len n : ℕ)
    → vl < 256
    → hi < 256
    → lo < 256
    → ((svz_raw_check_ip_header big (vl ∷ tos ∷ hi ∷ lo ∷ a ∷ b ∷ c ∷ d ∷ ttl ∷ protocol ∷ m) len).0
        ≡ some n)
      ↔ ((vl / 16 ≡ 4) × (n ≡ vl % 16 * 4) × (n ≤ len) × (len ≤ hi * 256 + lo) × (protocol ≡ 1))
unfolding svz_raw_check_ip_header
check_ip_header_iff big vl tos hi lo a b c d ttl protocol m len n hv hh hl =
    rw (read_big big hi lo (a ∷ b ∷ c ∷ d ∷ ttl ∷ protocol ∷ m) hh hl) (ground arith)
