-- ===== src/Udp/Swarm/Expiry.antt =====
-- What a cleaning keeps of the peers, and what it tells of the others.
use tracker_enhanced.Prelude.{Bool, List, [], ◌∷◌, ◌++◌, if◌then◌else◌}
use tracker_enhanced.Common.Time.{SecondsSinceServerStart, valid}
use tracker_enhanced.Udp.Swarm.Config.{Config, StatisticsMessage}
use tracker_enhanced.Udp.Swarm.Peers.{Entry, dropped}

-- The messages about the peers that a cleaning removes.
unfoldable pub expired_messages :
    {I : Type 0} → Config → SecondsSinceServerStart → List (Entry I) → List StatisticsMessage
expired_messages config now [] = []
expired_messages config now ((k, p) ∷ l) =
    if valid p.valid_until now
    then expired_messages config now l
    else dropped config p [] ++ expired_messages config now l

abbrev pub still_valid : {I : Type 0} → SecondsSinceServerStart → Entry I → Bool
still_valid now (k, p) = valid p.valid_until now
