-- ===== src/Http/Response/Bencode.antt =====
-- What the written responses are: the bencoded form of a dictionary.
use mathlib.Core.List.{append_assoc}
use tracker_enhanced.Prelude.{
  ℕ, ◌+◌, ◌/◌, ◌%◌, ◌≤◌, ◌<◌, ◌≡◌, refl, ap, ◌∙◌, Option, none, some, List, [], ◌∷◌, ◌++◌, arith,
  length,
}
use tracker_enhanced.UdpProtocol.Bytes.{Bytes}
use tracker_enhanced.Http.Messages.{AnnounceResponse, ScrapeResponse, ScrapeStatistics}
use tracker_enhanced.Http.Numbers.{Itoa}
use tracker_enhanced.Http.Response.{
  peers_bytes, Response, write_file, write_files, write_announce, write_scrape, write_failure,
  write_bytes, warning_part, files_text, end_text,
}
use tracker_enhanced.Http.Response.Compact.{ArePeers, length-peers_bytes}

-- Bencoded values, as BEP 3 has them.
mutual
  pub data Value : Type 0 where
    number : ℕ → Value
    text : Bytes → Value
    dictionary : Entries → Value

  pub data Entries : Type 0 where
    end : Entries
    entry : Bytes → Value → Entries → Entries

-- The printing of a value before some other bytes.
module _ (itoa : Itoa) where
  abbrev pub print_text : Bytes → Bytes → Bytes
  print_text s rest = itoa.format (length s) ++ (58 ∷ (s ++ rest))

  unfoldable mutual
    pub print : Value → Bytes → Bytes
    print (number n) rest = 105 ∷ (itoa.format n ++ (101 ∷ rest))
    print (text s) rest = print_text s rest
    print (dictionary entries) rest = 100 ∷ print_entries entries (101 ∷ rest)

    pub print_entries : Entries → Bytes → Bytes
    print_entries end rest = rest
    print_entries (entry key value entries) rest =
        print_text key (print value (print_entries entries rest))

  abbrev pub bencode : Value → Bytes
  bencode value = print value []

-- "complete"
abbrev complete_name : Bytes
complete_name = 99 ∷ 111 ∷ 109 ∷ 112 ∷ 108 ∷ 101 ∷ 116 ∷ 101 ∷ []

-- "incomplete"
abbrev incomplete_name : Bytes
incomplete_name = 105 ∷ 110 ∷ complete_name

-- "downloaded"
abbrev downloaded_name : Bytes
downloaded_name = 100 ∷ 111 ∷ 119 ∷ 110 ∷ 108 ∷ 111 ∷ 97 ∷ 100 ∷ 101 ∷ 100 ∷ []

-- "interval"
abbrev interval_name : Bytes
interval_name = 105 ∷ 110 ∷ 116 ∷ 101 ∷ 114 ∷ 118 ∷ 97 ∷ 108 ∷ []

-- "peers"
abbrev peers_name : Bytes
peers_name = 112 ∷ 101 ∷ 101 ∷ 114 ∷ 115 ∷ []

-- "peers6"
abbrev peers6_name : Bytes
peers6_name = peers_name ++ 54 ∷ []

-- "warning message"
abbrev warning_name : Bytes
warning_name =
    119 ∷ 97 ∷ 114 ∷ 110 ∷ 105 ∷ 110 ∷ 103 ∷ 32 ∷ 109 ∷ 101 ∷ 115 ∷ 115 ∷ 97 ∷ 103 ∷ 101 ∷ []

-- "files"
abbrev files_name : Bytes
files_name = 102 ∷ 105 ∷ 108 ∷ 101 ∷ 115 ∷ []

-- "failure reason"
abbrev failure_name : Bytes
failure_name = 102 ∷ 97 ∷ 105 ∷ 108 ∷ 117 ∷ 114 ∷ 101 ∷ 32 ∷ 114 ∷ 101 ∷ 97 ∷ 115 ∷ 111 ∷ 110 ∷ []

abbrev pub warning_entry : Option Bytes → Entries
warning_entry none = end
warning_entry (some message) = entry warning_name (text message) end

-- Three numbers, of which `downloaded` does not come from the statistics.
abbrev pub statistics_value : ScrapeStatistics → Value
statistics_value statistics = dictionary (
    entry complete_name (number statistics.complete)
      (entry downloaded_name (number 0) (entry incomplete_name (number statistics.incomplete) end)))

abbrev pub file_entries : List (Bytes × ScrapeStatistics) → Entries
file_entries [] = end
file_entries ((info_hash, statistics) ∷ files) =
    entry info_hash (statistics_value statistics) (file_entries files)

-- The dictionary that a response is.
abbrev pub value_of : Response → Value
value_of (Response.announce r) = dictionary (
    entry complete_name (number r.complete) (
      entry incomplete_name (number r.incomplete) (
        entry interval_name (number r.announce_interval) (
          entry peers_name (text (peers_bytes r.peers))
            (entry peers6_name (text (peers_bytes r.peers6)) (warning_entry r.warning_message))))))
value_of (Response.scrape r) = dictionary (entry files_name (dictionary (file_entries r.files)) end)
value_of (Response.failure failure_reason) =
    dictionary (entry failure_name (text failure_reason) end)

-- All info hashes have 20 bytes.
abbrev pub AreHashes : List (Bytes × ScrapeStatistics) → Type 0
AreHashes [] = Unit
AreHashes ((info_hash, statistics) ∷ files) = (length info_hash ≡ 20) × AreHashes files

-- The sizes that the types of the fields give.
abbrev pub IsSized : Response → Type 0
IsSized (Response.announce r) = ArePeers 4 r.peers × ArePeers 16 r.peers6
IsSized (Response.scrape r) = AreHashes r.files
IsSized (Response.failure failure_reason) = Unit

-- `itoa` writes numbers in base ten, without leading zeros.
pub record IsDecimal (itoa : Itoa) : Type 0 where
  pub one_digit : (n : ℕ) → n < 10 → itoa.format n ≡ (48 + n) ∷ []
  pub more_digits : (n : ℕ) → 10 ≤ n → itoa.format n ≡ itoa.format (n / 10) ++ (48 + n % 10) ∷ []

module _ (itoa : Itoa) (d : IsDecimal itoa) where
  two_digits : (n : ℕ) → 10 ≤ n → n < 100 → itoa.format n ≡ (48 + n / 10) ∷ (48 + n % 10) ∷ []
  two_digits n low high =
      d.more_digits n low ∙ ap (λ l. l ++ (48 + n % 10) ∷ []) (d.one_digit (n / 10) (omega arith))

  file_eq :
      (info_hash : Bytes) (statistics : ScrapeStatistics) (rest : Bytes)
      → length info_hash ≡ 20
      → write_file itoa (info_hash, statistics) ++ rest
        ≡ print_text itoa info_hash (print itoa (statistics_value statistics) rest)
  unfolding print
  file_eq info_hash statistics rest size =
      rw
        (
          size,
          two_digits 20 (omega arith) (omega arith),
          d.one_digit 8 (omega arith),
          two_digits 10 (omega arith) (omega arith),
          d.one_digit 0 (omega arith),
        )
        (simp append_assoc)

  files_eq :
      (files : List (Bytes × ScrapeStatistics)) (rest : Bytes)
      → AreHashes files
      → write_files itoa files ++ rest ≡ print_entries itoa (file_entries files) rest
  unfolding write_files print
  files_eq [] rest sized = refl
  files_eq ((info_hash, statistics) ∷ files) rest (size, sized) =
      append_assoc (write_file itoa (info_hash, statistics)) (write_files itoa files) rest
      ∙ ap (λ l. write_file itoa (info_hash, statistics) ++ l) (files_eq files rest sized)
      ∙ file_eq info_hash statistics (print_entries itoa (file_entries files) rest) size

  warning_eq :
      (message : Option Bytes)
      → warning_part itoa message ++ (101 ∷ [])
        ≡ print_entries itoa (warning_entry message) (101 ∷ [])
  unfolding print
  warning_eq none = refl
  warning_eq (some message) = rw (two_digits 15 (omega arith) (omega arith)) (simp append_assoc)

  announce_eq :
      (r : AnnounceResponse)
      → ArePeers 4 r.peers
      → ArePeers 16 r.peers6
      → write_announce itoa r ≡ bencode itoa (value_of (Response.announce r))
  unfolding write_announce print
  announce_eq r four sixteen =
      rw
        (
          length-peers_bytes 4 r.peers four,
          length-peers_bytes 16 r.peers6 sixteen,
          d.one_digit 8 (omega arith),
          two_digits 10 (omega arith) (omega arith),
          d.one_digit 5 (omega arith),
          d.one_digit 6 (omega arith),
          warning_eq r.warning_message,
        )
        refl

  scrape_eq :
      (r : ScrapeResponse)
      → AreHashes r.files
      → write_scrape itoa r ≡ bencode itoa (value_of (Response.scrape r))
  unfolding write_scrape print
  scrape_eq r sized =
      rw (d.one_digit 5 (omega arith)) (ap (λ l. files_text ++ l) (files_eq r.files end_text sized))

  failure_eq :
      (reason : Bytes)
      → write_failure itoa reason ≡ bencode itoa (value_of (Response.failure reason))
  unfolding write_failure print
  failure_eq reason = rw (two_digits 14 (omega arith) (omega arith)) refl

  -- A response is written as the bencoded dictionary of its fields, the peers in compact form and
  -- each of its size, a warning only if there is one. In a scrape the number of downloads is 0
  -- whatever the statistics say.
  pub write_bytes-bencode :
      (r : Response) → IsSized r → write_bytes itoa r ≡ bencode itoa (value_of r)
  unfolding write_bytes
  write_bytes-bencode (Response.announce r) (four, sixteen) = announce_eq r four sixteen
  write_bytes-bencode (Response.scrape r) sized = scrape_eq r sized
  write_bytes-bencode (Response.failure reason) sized = failure_eq reason
