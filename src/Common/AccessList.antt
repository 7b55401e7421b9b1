-- ===== src/Common/AccessList.antt =====
-- crates/common/src/access_list.rs: which torrents are served.
use tracker_enhanced.Prelude.{Bool, true, not}
use tracker_enhanced.UdpProtocol.Bytes.{Bytes}

pub data AccessListMode : Type 0 where
  allow deny off : AccessListMode

-- `AccessList`, by the membership test of its `HashSet`.
pub record AccessList : Type 0 where
  pub contains : Bytes → Bool

-- `AccessList::allows`
abbrev pub allows : AccessList → AccessListMode → Bytes → Bool
allows list AccessListMode.allow info_hash = list.contains info_hash
allows list AccessListMode.deny info_hash = not (list.contains info_hash)
allows list AccessListMode.off info_hash = true

-- `AccessListMode::is_on`
abbrev pub is_on : AccessListMode → Bool
is_on AccessListMode.off = not true
is_on AccessListMode.allow = true
is_on AccessListMode.deny = true
