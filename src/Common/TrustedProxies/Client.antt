-- ===== src/Common/TrustedProxies/Client.antt =====
-- What `last_forwarded_for_ip` answers, and why a client cannot choose it.
use tracker_enhanced.Prelude.{
  ◌≡◌, refl, ap, ◌∙◌, true, false, ◌||◌, Option, none, some, List, [], ◌∷◌, ◌++◌, arith, eqb,
  Bool-cases, inl, inr,
}
use tracker_enhanced.Common.Ip.{IpAddr, ip_eq, canonical_ip}
use tracker_enhanced.UdpProtocol.Bytes.{Bytes}
use tracker_enhanced.Common.TrustedProxies.{
  IpNetworkTable, Forwarded, split, values_of, get_or_insert, or, is_trusted, note_option,
  forwarded, last_forwarded_for_ip,
}

-- The values of two texts that a comma joins.
split-comma :
    (front rest : Bytes)
    → split (front ++ (44 ∷ rest)) ≡ ((split front).0, (split front).1 ++ values_of rest)
unfolding split
split-comma [] rest = refl
split-comma (b ∷ bs) rest = elim (Bool-cases (eqb b 44)) [
  | inl comma ↦ rw (split-comma bs rest, comma) refl
  | inr other ↦ rw (split-comma bs rest, other) refl
]

values_of-comma :
    (front rest : Bytes) → values_of (front ++ (44 ∷ rest)) ≡ values_of front ++ values_of rest
values_of-comma front rest = ap (λ s. s.0 ∷ s.1) (split-comma front rest)

or_none : (o : Option IpAddr) → o ≡ or o none
or_none none = refl
or_none (some ip) = refl

or-get_or_insert :
    (o : Option IpAddr) (ip : IpAddr) (rest : Option IpAddr)
    → or (get_or_insert o ip) rest ≡ or o (some ip)
or-get_or_insert none ip rest = refl
or-get_or_insert (some old) ip rest = refl

module _ (n : IpNetworkTable) (table : n.Table) where
  -- An address is trusted exactly if it or its canonical form is in the table.
  pub is_trusted_lem :
      (addr : IpAddr)
      → is_trusted n table addr ≡ (n.matches table addr || n.matches table (canonical_ip addr))
  unfolding is_trusted
  is_trusted_lem addr = elim (Bool-cases (n.is_empty table)) [
    | inl empty ↦
        rw
          (empty, n.empty_matches table addr empty, n.empty_matches table (canonical_ip addr) empty)
          refl
    | inr some_ ↦
        rw some_ (ground (arith, ip_eq.beq_iff (canonical_ip addr) addr, ap (n.matches table)))
  ]

module _ (n : IpNetworkTable) (parse : Bytes → Option IpAddr) (table : n.Table) where
  -- A value that is no address, or the address of a trusted proxy.
  abbrev pub Skipped : Option IpAddr → Type 0
  Skipped none = Unit
  Skipped (some ip) = is_trusted n table (canonical_ip ip) ≡ true

  abbrev pub AllSkipped : List Bytes → Type 0
  AllSkipped [] = Unit
  AllSkipped (value ∷ values) = Skipped (parse value) × AllSkipped values

  note-Skipped :
      (f : Forwarded) (o : Option IpAddr)
      → Skipped o
      → (note_option n parse table f o).rightmost_untrusted ≡ f.rightmost_untrusted
  note-Skipped f none s = refl
  note-Skipped f (some ip) s = rw s refl

  note-untrusted :
      (f : Forwarded) (ip : IpAddr)
      → is_trusted n table (canonical_ip ip) ≡ false
      → (note_option n parse table f (some ip)).rightmost_untrusted ≡ some (canonical_ip ip)
  note-untrusted f ip h = rw h refl

  forwarded-Skipped :
      (f : Forwarded) (values : List Bytes)
      → AllSkipped values
      → (forwarded n parse table f values).rightmost_untrusted ≡ f.rightmost_untrusted
  unfolding forwarded
  forwarded-Skipped f [] s = refl
  forwarded-Skipped f (value ∷ values) (s, rest) =
      forwarded-Skipped (note_option n parse table f (parse value)) values rest
      ∙ note-Skipped f (parse value) s

  last_untrusted :
      (f : Forwarded) (value : Bytes) (ip : IpAddr) (values : List Bytes)
      → parse value ≡ some ip
      → is_trusted n table (canonical_ip ip) ≡ false
      → AllSkipped values
      → (forwarded n parse table f (value ∷ values)).rightmost_untrusted ≡ some (canonical_ip ip)
  unfolding forwarded
  last_untrusted f value ip values parsed untrusted skipped =
      forwarded-Skipped (note_option n parse table f (parse value)) values skipped
      ∙ (ap (λ o. (note_option n parse table f o).rightmost_untrusted) parsed
          ∙ note-untrusted f ip untrusted)

  forwarded-append :
      (f : Forwarded) (xs ys : List Bytes)
      → forwarded n parse table f (xs ++ ys)
        ≡ forwarded n parse table (forwarded n parse table f xs) ys
  unfolding forwarded
  forwarded-append f [] ys = refl
  forwarded-append f (x ∷ xs) ys = forwarded-append (note_option n parse table f (parse x)) xs ys

  -- The first address among values.
  abbrev pub first_valid : List Bytes → Option IpAddr
  first_valid [] = none
  first_valid (value ∷ values) = elim (parse value) [
    | none ↦ first_valid values
    | some ip ↦ some (canonical_ip ip)
  ]

  first_step :
      (f : Forwarded) (o rest : Option IpAddr)
      → or (note_option n parse table f o).leftmost_valid rest
        ≡ or f.leftmost_valid (elim o [ none ↦ rest | some ip ↦ some (canonical_ip ip) ])
  first_step f none rest = refl
  first_step f (some ip) rest = or-get_or_insert f.leftmost_valid (canonical_ip ip) rest

  forwarded-first_valid :
      (f : Forwarded) (values : List Bytes)
      → (forwarded n parse table f values).leftmost_valid ≡ or f.leftmost_valid (first_valid values)
  unfolding forwarded
  forwarded-first_valid f [] = or_none f.leftmost_valid
  forwarded-first_valid f (value ∷ values) =
      forwarded-first_valid (note_option n parse table f (parse value)) values
      ∙ first_step f (parse value) (first_valid values)

  -- The rightmost address that is not trusted is the answer, whatever text stands before it, with
  -- trusted proxies behind it or none.
  pub last_forwarded_for_ip_lem :
      (forged value proxies : Bytes) (ip : IpAddr)
      → (split value).1 ≡ []
      → parse (split value).0 ≡ some ip
      → is_trusted n table (canonical_ip ip) ≡ false
      → AllSkipped (values_of proxies)
      → (last_forwarded_for_ip n parse (forged ++ (44 ∷ (value ++ (44 ∷ proxies)))) table
          ≡ some (canonical_ip ip))
        × (last_forwarded_for_ip n parse (forged ++ (44 ∷ value)) table ≡ some (canonical_ip ip))
  unfolding last_forwarded_for_ip
  last_forwarded_for_ip_lem forged value proxies ip single parsed untrusted skipped =
      let f =
        forwarded n parse table (record { leftmost_valid = none; rightmost_untrusted = none })
          (values_of forged) in
      (
        rw
            (
              values_of-comma forged (value ++ (44 ∷ proxies)),
              values_of-comma value proxies,
              forwarded-append _ (values_of forged) (values_of value ++ values_of proxies),
              single,
              last_untrusted f (split value).0 ip (values_of proxies) parsed untrusted skipped,
            )
            refl,
        rw
            (
              values_of-comma forged value,
              forwarded-append _ (values_of forged) (values_of value),
              single,
              last_untrusted f (split value).0 ip [] parsed untrusted tt,
            )
            refl,
      )

  -- Where every address is trusted, the answer is the first one.
  pub last_forwarded_for_ip-AllSkipped :
      (header : Bytes)
      → AllSkipped (values_of header)
      → last_forwarded_for_ip n parse header table ≡ first_valid (values_of header)
  unfolding last_forwarded_for_ip
  last_forwarded_for_ip-AllSkipped header skipped =
      rw (forwarded-Skipped _ (values_of header) skipped)
        (forwarded-first_valid _ (values_of header))
