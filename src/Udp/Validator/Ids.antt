-- ===== src/Udp/Validator/Ids.antt =====
-- Which connection ids the validator accepts, and for how long.
use tracker_enhanced.Prelude.{
  ℕ, ◌+◌, ◌^◌, ◌≤◌, ◌<◌, ◌≡◌, ◌↔◌, sym, ap, ◌∙◌, Bool, true, false, ◌&&◌, ◌++◌, arith, ◌==◌,
  list_eq, nat_eq, ltb, leb, take, drop, le→leb, eq_self, Bool-cases, inl, inr, then_branch,
  else_branch, ltb→lt, leb→le, take-append-drop,
}
use tracker_enhanced.Common.Ip.{SocketAddr}
use tracker_enhanced.UdpProtocol.Bytes.{Bytes, take-append_length, drop-append_length}
use tracker_enhanced.Udp.Validator.{
  ConnectionValidator, Endian, hash, create_connection_id, connection_id_valid,
}

and_true : (b : Bool) → (b && true) ≡ b
and_true b = ground arith

-- A client that returns an id which it was given finds it valid for `max_connection_age` seconds
-- of the validator's clock, and no longer.
pub create_connection_id_lem :
    (en : Endian) (v : ConnectionValidator) (later : ℕ) (addr : SocketAddr)
    → v.seconds_since_start < 2 ^ 32
    → v.seconds_since_start ≤ later
    → connection_id_valid en
        (record v { seconds_since_start = later })
        addr
        (create_connection_id en v addr)
      ≡ ltb later (v.seconds_since_start + v.max_connection_age)
unfolding create_connection_id connection_id_valid hash
create_connection_id_lem en v later addr fits h =
    let elapsed = en.to_ne_bytes v.seconds_since_start in
    let len = en.length-to_ne_bytes v.seconds_since_start in
    let tag = hash en v elapsed addr.ip in
    let recent : leb v.seconds_since_start (later + 60) ≡ true =
      le→leb v.seconds_since_start (later + 60) (omega arith) in
    rw
      (
        take-append_length 4 elapsed tag len,
        drop-append_length 4 elapsed tag len,
        eq_self tag,
        en.from-to_ne_bytes v.seconds_since_start fits,
        recent,
      )
      (and_true (ltb later (v.seconds_since_start + v.max_connection_age)))

both : (a b : Bool) → (a && b) ≡ true → (a ≡ true) × (b ≡ true)
both a b h = ground arith

-- An id that the validator accepts for an address ends in the keyed hash of its first four bytes
-- and that address; the time in these bytes has not expired and is at most a minute ahead.
pub connection_id_valid_lem :
    (en : Endian) (v : ConnectionValidator) (addr : SocketAddr) (id : Bytes)
    → connection_id_valid en v addr id ≡ true
    → (id ≡ take 4 id ++ hash en v (take 4 id) addr.ip)
      × (v.seconds_since_start < en.from_ne_bytes (take 4 id) + v.max_connection_age)
      × (en.from_ne_bytes (take 4 id) ≤ v.seconds_since_start + 60)
unfolding connection_id_valid
connection_id_valid_lem en v addr id h =
    let same : ((drop 4 id == hash en v (take 4 id) addr.ip) ≡ true)
        ↔ (drop 4 id ≡ hash en v (take 4 id) addr.ip) =
      list_eq.beq_iff (drop 4 id) (hash en v (take 4 id) addr.ip) in
    let now = v.seconds_since_start in
    let elapsed = en.from_ne_bytes (take 4 id) in
    let b = drop 4 id == hash en v (take 4 id) addr.ip in
    let in_time = ltb now (elapsed + v.max_connection_age) && leb elapsed (now + 60) in
    elim (Bool-cases b) [
      | inl hit ↦
          let (young, near) =
            both (ltb now (elapsed + v.max_connection_age)) (leb elapsed (now + 60))
              (then_branch b in_time false true hit h) in
          (
            sym (take-append-drop 4 id) ∙ ap (λ x. take 4 id ++ x) (same.0 hit),
            ltb→lt now (elapsed + v.max_connection_age) young,
            leb→le elapsed (now + 60) near,
          )
      | inr miss ↦ cc (else_branch b in_time false true miss h)
    ]
