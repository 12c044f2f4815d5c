-- ===== src/Lib.antt =====
-- Verification of the arena game server (Go).
--
-- Parts, and the files that model them:
-- - internal/protocol: Protocol/. Types are the message records and constants of protocol.go;
--   Quantize is quantize.go; Client, Snapshot, Events, Tables, Scores and Server are codec.go, an
--   encoder append_x for AppendX, and for DecodeClient and DecodeServer a function for each case of
--   the switch. The children named Safety and RoundTrip hold the proofs.
-- - internal/game/replay.go: Game/Replay, with encode and decode_replay for Encode and DecodeReplay.
-- - internal/game/world.go: Game/World, the players of a room: id_taken, alloc_id, add_player,
--   remove_player and enqueue_input for the methods of these names. The proofs are in Ids, Order,
--   Inputs and Teams. A recording world appends to the log of Game/Replay.
-- - internal/game/match.go, and the leaders and winning teams of hill.go, domination.go and ctf.go:
--   Game/Match reads the players of Game/World; board is the scoreboard of MatchState. The proofs are
--   in Leader, Board, Standings and Winner.
-- - stepHill of internal/game/hill.go and stepDomination of domination.go: Game/Zone, the two passes
--   over the players once for both; Teams holds the proofs.
-- - internal/game/ctf.go: Game/Ctf, with step_ctf for stepCTF; Carriers holds the proofs.
-- - internal/game/combat.go, with the weapons of weapon.go, segmentWallHit of walls.go and cellCoord of
--   grid.go: Game/Combat has damage, death and respawn, Hits has the grid and findHit, Flight has
--   stepProjectiles and explode, and Fire has tryFire. The proofs are in Least (findHit against a
--   search over all players) on top of Covers (the grid), Cells and Window (its boxes), Choice (the
--   candidates), and Kept and Flights (what stays as it was when the grid was built), in Same and
--   Spared (whom a projectile leaves alone), Vital (hit points) and Cap (the number of projectiles).
-- - Step of internal/game/systems.go, the rest of walls.go, and spawnPoint: Game/Movement.
-- - AppendEntities and AppendWeapons: Game/Entities, what a world shows to the network.
-- - World.Step, and stepMatch and startMatch of match.go: Game/Tick, with step for World.Step and its
--   phases as functions; the proofs are in Health and Whole.
-- - internal/game/pickups.go: Game/Pickups, step_pickups over the five spots; the proofs are in Takers.
-- - internal/hub/hub.go: Hub, with assign for Assign; Rooms is about the hub over time.
-- - internal/game/killstreak.go: Game/Killstreak, record_kill for recordKill; the proofs are in
--   Milestones.
-- - internal/game/delta.go, and EntityFieldMask of internal/protocol/quantize.go: Game/Delta for the
--   difference, with Mask for the bits, and Game/Baseline for the ring, with Latest.
-- - internal/bot/reconstruct.go: Bot/Reconstruct, the client's half. The proofs go from one field
--   (Overlay) to one id (Merge, Image, Apply), to the set in order (Sorted, Unique, Follows), and Window is
--   about the ticks that are kept.
-- - internal/game/session.go, and sendSnapshotTo of internal/game/room.go: Game/Session, with
--   enqueue_snapshot, enqueue_reliable and send_snapshot_to. Queue is about the queues, View puts
--   the server's half and the client's together.
-- - internal/ratelimit/conns.go: Ratelimit/Conns, acquire and release; Keys is about its
--   map and Bounds about any calls.
--
-- Conventions: a byte slice or a string is the list of its bytes; an unsigned integer is a natural
-- number, whose range is a hypothesis where it matters, and an int16 an integer; Go's pair of value
-- and error is Prelude/Result, where panic stands for an index or a slice out of range, so that a
-- theorem about it shows that the code's own length checks suffice. Slicing is refused past the
-- length, which is stricter than Go's capacity. The floating-point types and operations are a
-- parameter (Prelude/Float: Floats, and Math for the package math), with what IEEE 754 and the language
-- promise of 16-bit integers (IsExact) and of the order of numbers in range (IsOrdered) as named
-- hypotheses, which hold of the numbers of Tests/Fixed. utf8.Valid is modelled by the table of
-- well-formed UTF-8. Loops are structural recursions on their counters or lists, so no fuel is used.
--
-- Not modelled: Checksum, the random generator, whose draws are arguments, and the counters against
-- cheating; of a room, the goroutine with its inbox, joining and leaving, the routing of events and
-- the broadcasts but for one session's snapshot; the AOI grid; transports, HTTP, accounts, storage,
-- metrics, tracing, the play of bots and the browser client.
pub mod Prelude
pub mod Protocol
pub mod Ratelimit
pub mod Game
pub mod Bot
pub mod Hub
pub mod Tests
