-- ===== src/UdpProtocol/Request/Soundness.antt =====
-- What an accepted packet looked like.
use mathlib.Core.List.{append_assoc}
use tracker_enhanced.Prelude.{
  ℕ, ◌≡◌, ◌≢◌, refl, sym, ap, ◌∙◌, ◌⊎◌, inl, inr, true, Option, none, some, List, ◌++◌, arith, take,
  length, min, some_inj,
}
use tracker_enhanced.Prelude.Int.{ℤ, pos, int_beq_iff}
use tracker_enhanced.UdpProtocol.Bytes.{
  Bytes, get_i32, get_i64, get_u16, read_exact, read_exact_sound,
}
use tracker_enhanced.UdpProtocol.Layout.{Zerocopy, as_bytes, slice_bytes, IsSized, AllSized}
use tracker_enhanced.UdpProtocol.Messages.{
  Request, RequestParseError, ConnectRequest, AnnounceRequest, ScrapeRequest,
  announce_request_packed, info_hash_packed,
}
use tracker_enhanced.UdpProtocol.Request.Roundtrip.{action_bytes-append}
use tracker_enhanced.UdpProtocol.Request.{
  Result, ok, ◌>>=◌, ok_or, is_event, action_bytes, parse_connect, parse_announce, parse_scrape,
  parse_info_hashes, parse_action, parse_bytes, protocol_identifier,
}

-- An accepted step read something.
ok_or->>= :
    {A : Type 0} (o : Option A) (e : RequestParseError) (f : A → Result Request) {r : Request}
    → (ok_or o e >>= f) ≡ ok r
    → (a : A) × (o ≡ some a) × (f a ≡ ok r)
ok_or->>= none e f h = absurd (ground arith)
ok_or->>= (some a) e f h = (a, refl, h)

-- The bytes of a packet at a fixed place: the action number is there and is this one.
same_action :
    (bs first action rest a : Bytes)
    → bs ≡ first ++ (action ++ rest)
    → length first ≡ 8
    → length action ≡ 4
    → action_bytes bs ≡ some a
    → action ≡ a
same_action bs first action rest a q long_first long_action e = some_inj (
    sym (action_bytes-append first action rest long_first long_action)
    ∙ ap action_bytes (sym q)
    ∙ e)

-- A connect request comes from a packet of the protocol identifier in eight bytes, the action 0 in
-- four, and the transaction id in four, whatever follows.
abbrev pub Connected : Bytes → ConnectRequest → Type 0
Connected bs c =
    (protocol action rest : Bytes) × (bs ≡ protocol ++ (action ++ (c.transaction_id ++ rest)))
    × (length protocol ≡ 8)
    × (length action ≡ 4)
    × (length c.transaction_id ≡ 4)
    × (get_i64 protocol ≡ pos protocol_identifier)
    × (get_i32 action ≡ pos 0)

parse_connect_steps :
    (bs : Bytes) (r : Request)
    → parse_connect bs ≡ ok r
    → (p bs₁ action bs₂ t bs₃ : Bytes) × (read_exact 8 bs ≡ some (p, bs₁))
      × (read_exact 4 bs₁ ≡ some (action, bs₂))
      × (read_exact 4 bs₂ ≡ some (t, bs₃))
      × (get_i64 p ≡ pos protocol_identifier)
      × (r ≡ Request.connect (record { transaction_id = t }))
unfolding parse_connect
parse_connect_steps bs r h =
    let ((p, bs₁), e₁, h₁) = ok_or->>= (read_exact 8 bs) _ _ h in
    let ((action, bs₂), e₂, h₂) = ok_or->>= (read_exact 4 bs₁) _ _ h₁ in
    let ((t, bs₃), e₃, k) = ok_or->>= (read_exact 4 bs₂) _ _ h₂ in
    (
      p,
      bs₁,
      action,
      bs₂,
      t,
      bs₃,
      e₁,
      e₂,
      e₃,
      ground (arith, k, int_beq_iff (get_i64 p) (pos protocol_identifier)),
      ground (arith, k),
    )

parse_connect_sound :
    (bs a : Bytes) (r : Request)
    → parse_connect bs ≡ ok r
    → action_bytes bs ≡ some a
    → get_i32 a ≡ pos 0
    → (c : ConnectRequest) × (r ≡ Request.connect c) × Connected bs c
parse_connect_sound bs a r h e number =
    let (p, bs₁, action, bs₂, t, bs₃, e₁, e₂, e₃, id, q) = parse_connect_steps bs r h in
    let (s₁, l₁) = read_exact_sound 8 bs p bs₁ e₁ in
    let (s₂, l₂) = read_exact_sound 4 bs₁ action bs₂ e₂ in
    let (s₃, l₃) = read_exact_sound 4 bs₂ t bs₃ e₃ in
    let whole : bs ≡ p ++ (action ++ (t ++ bs₃)) = cc (s₁, s₂, s₃) in
    (
      record { transaction_id = t },
      q,
      (
        p,
        action,
        bs₃,
        whole,
        l₁,
        l₂,
        l₃,
        id,
        ap get_i32 (same_action bs p action (t ++ bs₃) a whole l₁ l₂ e) ∙ number,
      ),
    )

-- What a scrape request says of the packet that it was read from: the connection id in eight bytes,
-- the action 2 and the transaction id in four each, and the info hashes.
abbrev pub Scraped : Bytes → ℕ → ScrapeRequest → Type 0
Scraped bs max s =
    (all : List Bytes) × AllSized info_hash_packed all
    × (s.info_hashes ≡ take (min max (length all)) all)
    × (length s.connection_id ≡ 8)
    × (length s.transaction_id ≡ 4)
    × ((action : Bytes) × (bs
          ≡ s.connection_id ++ (action ++ (s.transaction_id ++ slice_bytes info_hash_packed all)))
        × (length action ≡ 4)
        × (get_i32 action ≡ pos 2))

abbrev pub Announced : Bytes → AnnounceRequest → Type 0
Announced bs a =
    IsSized announce_request_packed a
    × ((rest : Bytes) × (bs ≡ as_bytes announce_request_packed a ++ rest))
    × (get_u16 a.port ≢ 0)
    × (is_event (get_i32 a.event) ≡ true)

-- What an accepted packet holds: each kind of request with its action number.
abbrev pub Accepted : Bytes → ℕ → Request → Type 0
Accepted bs max (Request.connect c) = Connected bs c
Accepted bs max (Request.announce a) = Announced bs a × (get_i32 a.action_placeholder ≡ pos 1)
Accepted bs max (Request.scrape s) = Scraped bs max s

-- Each action is read by one parser.
abbrev Arm : Zerocopy → ℤ → Bytes → ℕ → Request → Type 0
Arm z action bs max r =
    ((action ≡ pos 0) × (parse_connect bs ≡ ok r))
    ⊎ ((action ≡ pos 1) × (parse_announce z bs ≡ ok r))
    ⊎ ((action ≡ pos 2) × (parse_scrape z bs max ≡ ok r))

regroup : (a b c d : Bytes) → (a ++ (b ++ c)) ++ d ≡ a ++ (b ++ (c ++ d))
regroup a b c d = simp append_assoc

announced_action :
    (bs a : Bytes) (r : AnnounceRequest)
    → action_bytes bs ≡ some a
    → Announced bs r
    → r.action_placeholder ≡ a
announced_action bs a r e (sized, (rest, q), _, _) =
    same_action bs r.connection_id r.action_placeholder _ a
      (q ∙ regroup r.connection_id r.action_placeholder _ rest) sized.0 sized.1.0 e

module _ (z : Zerocopy) where
  parse_announce_sound :
      (bs : Bytes) (r : Request)
      → parse_announce z bs ≡ ok r
      → (a : AnnounceRequest) × (r ≡ Request.announce a) × Announced bs a
  unfolding parse_announce
  parse_announce_sound bs r h =
      let (a, e, t) = ok_or->>= (z.read_from_prefix announce_request_packed bs) _ _ h in
      let (sized, rest) = z.read_from_prefix_sound announce_request_packed bs a e in
      (a, ground arith, (sized, rest, ground arith, ground arith))

  parse_info_hashes_sound :
      (c t bs : Bytes) (max : ℕ) (r : Request)
      → parse_info_hashes z c t bs max ≡ ok r
      → (all : List Bytes) × (z.slice_from info_hash_packed bs ≡ some all)
        × (r
            ≡ Request.scrape (record {
              connection_id = c;
              transaction_id = t;
              info_hashes = take (min max (length all)) all;
            }))
  unfolding parse_info_hashes
  parse_info_hashes_sound c t bs max r h = ground arith

  parse_scrape_steps :
      (bs : Bytes) (max : ℕ) (r : Request)
      → parse_scrape z bs max ≡ ok r
      → (c bs₁ action bs₂ t bs₃ : Bytes) × (read_exact 8 bs ≡ some (c, bs₁))
        × (read_exact 4 bs₁ ≡ some (action, bs₂))
        × (read_exact 4 bs₂ ≡ some (t, bs₃))
        × (parse_info_hashes z c t bs₃ max ≡ ok r)
  unfolding parse_scrape
  parse_scrape_steps bs max r h =
      let ((c, bs₁), e₁, h₁) = ok_or->>= (read_exact 8 bs) _ _ h in
      let ((action, bs₂), e₂, h₂) = ok_or->>= (read_exact 4 bs₁) _ _ h₁ in
      let ((t, bs₃), e₃, k) = ok_or->>= (read_exact 4 bs₂) _ _ h₂ in
      (c, bs₁, action, bs₂, t, bs₃, e₁, e₂, e₃, k)

  parse_scrape_sound :
      (bs a : Bytes) (max : ℕ) (r : Request)
      → parse_scrape z bs max ≡ ok r
      → action_bytes bs ≡ some a
      → get_i32 a ≡ pos 2
      → (s : ScrapeRequest) × (r ≡ Request.scrape s) × Scraped bs max s
  parse_scrape_sound bs a max r h found number =
      let (c, bs₁, action, bs₂, t, bs₃, e₁, e₂, e₃, k) = parse_scrape_steps bs max r h in
      let (all, e, q) = parse_info_hashes_sound c t bs₃ max r k in
      let (sized, q₄) = z.slice_from_sound info_hash_packed bs₃ all (omega arith) e in
      let (s₁, l₁) = read_exact_sound 8 bs c bs₁ e₁ in
      let (s₂, l₂) = read_exact_sound 4 bs₁ action bs₂ e₂ in
      let (s₃, l₃) = read_exact_sound 4 bs₂ t bs₃ e₃ in
      let whole : bs ≡ c ++ (action ++ (t ++ slice_bytes info_hash_packed all)) =
        cc (s₁, s₂, s₃, q₄) in
      (
        record {
          connection_id = c;
          transaction_id = t;
          info_hashes = take (min max (length all)) all;
        },
        q,
        (
          all,
          sized,
          refl,
          l₁,
          l₃,
          (action, whole, l₂, ap get_i32 (same_action bs c action _ a whole l₁ l₂ found) ∙ number),
        ),
      )

  parse_action-Arm :
      (action : ℤ) (bs : Bytes) (max : ℕ) (r : Request)
      → parse_action z action bs max ≡ ok r
      → Arm z action bs max r
  unfolding parse_action
  parse_action-Arm action bs max r h =
      ground
        (arith, int_beq_iff action (pos 0), int_beq_iff action (pos 1), int_beq_iff action (pos 2))

  parse_bytes_action :
      (bs : Bytes) (max : ℕ) (r : Request)
      → parse_bytes z bs max ≡ ok r
      → (a : Bytes) × (action_bytes bs ≡ some a) × Arm z (get_i32 a) bs max r
  unfolding parse_bytes
  parse_bytes_action bs max r h =
      let (a, e, k) = ok_or->>= (action_bytes bs) _ _ h in
      (a, e, parse_action-Arm (get_i32 a) bs max r k)

  -- Whatever `parse_bytes` accepts is a packet that holds the fields of the request that it
  -- returns, each in its place and of its size: a connect has the protocol identifier and action 0,
  -- an announce a port, an event from 0 to 3 and action 1, a scrape action 2 and the first `max`
  -- info hashes of the packet.
  pub parse_bytes_sound :
      (bs : Bytes) (max : ℕ) (r : Request) → parse_bytes z bs max ≡ ok r → Accepted bs max r
  parse_bytes_sound bs max r h =
      let (a, e, arm) = parse_bytes_action bs max r h in
      elim arm [
        | inl (k, p) ↦ let (c, q, t) = parse_connect_sound bs a r p e k in rw q t
        | inr (inl (k, p)) ↦
            let (c, q, t) = parse_announce_sound bs r p in
            rw q (t, ap get_i32 (announced_action bs a c e t) ∙ k)
        | inr (inr (k, p)) ↦ let (c, q, t) = parse_scrape_sound bs a max r p e k in rw q t
      ]
