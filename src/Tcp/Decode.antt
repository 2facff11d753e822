-- ===== src/Tcp/Decode.antt =====
-- tcp/tcp_packet.go: ParsePacket on the layers that gopacket decodes, and what the package reads of a TCP header.
use goreplay.Base.{
  ℕ, ◌+◌, ◌-◌, ◌*◌, ◌≡◌, refl, sym, ap, ◌∙◌, Bool, true, false, Bytes, codes, Outcome, done, panic,
  ◌>>=◌, Option, none, some, List, [], ◌∷◌, ◌++◌, append_assoc, append-nil, length, length-append,
  take, take-append, Option-cases, inl, inr, ltb, ◌==◌, if◌then◌else◌, arith,
}
use goreplay.Modifier.{is_nil}
use goreplay.Text.Decimal.{format_ℕ}
use goreplay.Tcp.Segment.{IpHeader, lost}

-- An option of a TCP header; the kind of the maximum segment size is 2 and that of the window scale is 3.
pub record TcpOption : Type 0 where
  pub kind : ℕ
  pub length_of : ℕ
  pub content : Bytes

pub record TcpHeader : Type 0 where
  pub src_port : ℕ
  pub dst_port : ℕ
  pub data_offset : ℕ
  pub fin : Bool
  pub syn : Bool
  pub rst : Bool
  pub psh : Bool
  pub ack : Bool
  pub urg : Bool
  pub options : List TcpOption
  pub payload : Bytes

-- What gopacket found: an IP header with the texts of its addresses, a TCP header, and whether a layer failed.
pub record Layers : Type 0 where
  pub network : Option (IpHeader × Bytes × Bytes)
  pub transport : Option TcpHeader
  pub failed : Bool

pub record ParsedPacket : Type 0 where
  pub ip : IpHeader
  pub src_ip : Bytes
  pub dst_ip : Bytes
  pub tcp : TcpHeader
  pub lost_bytes : ℕ

-- `ParsePacket`: the packet, or none for another protocol, and whether there is an error; a layer that failed is one,
-- with or without a packet.
unfoldable pub parse_packet : Layers → Option ParsedPacket × Bool
parse_packet l = elim l.network [
  | none ↦ (none, l.failed)
  | some (ip, src, dst) ↦ elim l.transport [
    | none ↦ (none, l.failed)
    | some tcp ↦ (
      some (record {
        ip = ip;
        src_ip = src;
        dst_ip = dst;
        tcp = tcp;
        lost_bytes = lost ip tcp.data_offset (length tcp.payload);
      }),
      l.failed,
    )
  ]
]

-- `Src` and `Dst`
unfoldable pub src : ParsedPacket → Bytes
src p = p.src_ip ++ (b':' ∷ format_ℕ p.tcp.src_port)

unfoldable pub dst : ParsedPacket → Bytes
dst p = p.dst_ip ++ (b':' ∷ format_ℕ p.tcp.dst_port)

-- `binary.BigEndian.Uint16`, which panics on less than two bytes.
abbrev pub big_endian_16 : Bytes → Outcome ℕ
big_endian_16 (a ∷ (b ∷ more)) = done (256 * a + b)
big_endian_16 _ = panic

abbrev pub first_byte : Bytes → Outcome ℕ
first_byte [] = panic
first_byte (a ∷ more) = done a

-- The loop of `SYNOptions`.
unfoldable pub scan_options : List TcpOption → ℕ → ℕ → Outcome (ℕ × ℕ)
scan_options [] mss scale = done (mss, scale)
scan_options (v ∷ more) mss scale =
    if v.kind == 2
    then (do size ← big_endian_16 v.content; scan_options more size scale)
    else if v.kind == 3
    then (if ltb 0 v.length_of
        then (do s ← first_byte v.content; scan_options more mss s)
        else scan_options more mss scale)
    else scan_options more mss scale

unfoldable pub syn_options : TcpHeader → Outcome (ℕ × ℕ)
syn_options h = if h.syn then scan_options h.options 0 0 else done (0, 0)

-- The names of the flags that are set, each with a comma and a blank behind it.
unfoldable pub flag_text : List (Bool × Bytes) → Bytes
flag_text [] = []
flag_text ((set, name) ∷ more) =
    let rest = flag_text more in if set then name ++ (codes ", " ++ rest) else rest

abbrev pub flags : TcpHeader → List (Bool × Bytes)
flags h =
    (h.fin, codes "FIN")
    ∷ (h.syn, codes "SYN")
    ∷ (h.rst, codes "RST")
    ∷ (h.psh, codes "PSH")
    ∷ (h.ack, codes "ACK")
    ∷ (h.urg, codes "URG")
    ∷ []

-- `Flag`
unfoldable pub flag : TcpHeader → Bytes
flag h = let text = flag_text (flags h) in if is_nil text then text else take (length text - 2) text

-- The names of the flags that are set, with a separator between two of them.
abbrev pub names_of : List (Bool × Bytes) → List Bytes
names_of [] = []
names_of ((set, name) ∷ more) = let rest = names_of more in if set then name ∷ rest else rest

abbrev pub comma_separated : List Bytes → Bytes
comma_separated [] = []
comma_separated (n ∷ []) = n
comma_separated (n ∷ (m ∷ more)) = n ++ (codes ", " ++ comma_separated (m ∷ more))

-- The packet's error is that of the layers, and a packet of another protocol is none without an error.
pub parse_packet-failed : (l : Layers) → (parse_packet l).1 ≡ l.failed
unfolding parse_packet
parse_packet-failed l = elim (Option-cases l.network) [
  | inl e ↦ rw (e, parse_packet) refl
  | inr (ip, e) ↦
      rw (e, parse_packet)
        (elim (Option-cases l.transport) [
          | inl f ↦ rw (f, parse_packet) refl
          | inr (tcp, f) ↦ rw (f, parse_packet) refl
        ])
]

-- The names with a separator behind each.
abbrev trailed : List Bytes → Bytes
trailed [] = []
trailed (n ∷ ns) = n ++ (codes ", " ++ trailed ns)

flag_text-trailed : (fs : List (Bool × Bytes)) → flag_text fs ≡ trailed (names_of fs)
unfolding flag_text
flag_text-trailed [] = refl
flag_text-trailed ((true, name) ∷ more) =
    ap (λ t. name ++ (codes ", " ++ t)) (flag_text-trailed more)
flag_text-trailed ((false, name) ∷ more) = flag_text-trailed more

trailed-comma_separated :
    (n : Bytes) (ns : List Bytes) → trailed (n ∷ ns) ≡ comma_separated (n ∷ ns) ++ codes ", "
trailed-comma_separated n [] = ap (λ t. n ++ t) (append-nil (codes ", "))
trailed-comma_separated n (m ∷ ns) =
    ap (λ t. n ++ (codes ", " ++ t)) (trailed-comma_separated m ns)
    ∙ sym (append_assoc n (codes ", " ++ comma_separated (m ∷ ns)) (codes ", "))

is_nil-append : (p : Bytes) (c : ℕ) (q : Bytes) → is_nil (p ++ (c ∷ q)) ≡ false
is_nil-append [] c q = refl
is_nil-append (x ∷ p) c q = refl

cut_flags :
    (ns : List Bytes)
    → (if is_nil (trailed ns) then trailed ns else take (length (trailed ns) - 2) (trailed ns))
      ≡ comma_separated ns
cut_flags [] = refl
cut_flags (n ∷ ns) = rw (trailed-comma_separated n ns) (
    rw (is_nil-append (comma_separated (n ∷ ns)) b',' (b' ' ∷ [])) (
      take-append (comma_separated (n ∷ ns)) (codes ", ")
        (length (comma_separated (n ∷ ns) ++ codes ", ") - 2)
        (omega (arith, length-append (comma_separated (n ∷ ns)) (codes ", ")))))

-- `Flag` gives the names of the flags that are set, with a separator between two of them.
pub flag-comma_separated : (h : TcpHeader) → flag h ≡ comma_separated (names_of (flags h))
unfolding flag
flag-comma_separated h =
    ap (λ t. if is_nil t then t else take (length t - 2) t) (flag_text-trailed (flags h))
    ∙ cut_flags (names_of (flags h))
