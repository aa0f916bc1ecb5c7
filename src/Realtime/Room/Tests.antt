-- ===== src/Realtime/Room/Tests.antt =====
-- The theorems on rooms at a concrete room, with an index that answers with all that it holds.
use gmaker.Common.{ℕ, ◌≡◌, ap, true, List, [], ◌∷◌}
use gmaker.Realtime.Room.{
  origin, Message, player_enter, player_leave, room_tick, RoomConfig, SpatialIndex, Room, create,
  on_messages, broadcast_snapshot,
}
use gmaker.Realtime.Room.Members.{IsValid, on_messages-IsValid, create-IsValid}
use gmaker.Realtime.Room.Broadcasts.{ArePaired, broadcast_snapshot-ArePaired}

abbrev everyone : SpatialIndex
everyone = record {
  Index = List ℕ;
  clear = λ index. [];
  insert = λ index pid x z. pid ∷ index;
  query_range = λ index x z radius. index;
}

abbrev for_two : RoomConfig
for_two = record { room_id = 1; max_players = 2; enable_aoi = true; aoi_radius = 0 }

abbrev visits : List Message
visits =
    player_enter 7 origin 70
    ∷ player_enter 8 origin 80
    ∷ player_enter 9 origin 90
    ∷ room_tick 5
    ∷ room_tick 6
    ∷ player_leave 7
    ∷ []

on_messages-IsValid_example :
    IsValid everyone for_two ((on_messages everyone (create everyone for_two [] true) visits).0)
on_messages-IsValid_example =
    on_messages-IsValid everyone for_two visits (create everyone for_two [] true)
      (create-IsValid everyone for_two [] true)

-- A room that player 7 has entered.
abbrev visited : Room everyone
visited = (on_messages everyone (create everyone for_two [] true) (player_enter 7 origin 70 ∷ [])).0

visited-IsValid : IsValid everyone for_two visited
visited-IsValid =
    on_messages-IsValid everyone for_two (player_enter 7 origin 70 ∷ [])
      (create everyone for_two [] true) (create-IsValid everyone for_two [] true)

visited_aoi : visited.cfg.enable_aoi ≡ true
visited_aoi = ap (λ (c : RoomConfig). c.enable_aoi) visited-IsValid.same_cfg

broadcast_snapshot-ArePaired_example :
    ArePaired everyone visited (broadcast_snapshot everyone visited)
broadcast_snapshot-ArePaired_example =
    broadcast_snapshot-ArePaired everyone for_two visited visited-IsValid visited_aoi
