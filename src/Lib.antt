-- ===== src/Lib.antt =====
-- A verification library for the game server framework: the SDK under mysdk, the battleground server
-- under game/LoongBgSrv and the boss server under game/bosssrv (paths are under my-simple-code/src).
--
-- The SDK. Net/Buffer models mysdk/net/Buffer.h and Buffer.cc, the byte buffer between a socket and a
-- codec: storage, reader index and writer index, with size_t arithmetic that wraps. A failed assertion
-- or an access out of range is `none`. Inv holds the invariant, Refine and Moves show the operations as
-- operations on the list of readable bytes, Words the reading and writing of machine words. readv is
-- known by its answer. Kabu/Packet models protocol/kabu/codec/PacketBase.cc, a head and a content in
-- such a buffer, and Kabu/Codec models KaBuCodec.cc: onMessage is the loop over the received bytes,
-- with both callbacks as parameters; a state of the callbacks' own is passed through. The loop runs on
-- fuel, and as many rounds as there are frames and one more are enough. Frame is one frame and its
-- round, Frames bytes that are whole packets, Stuck bytes that are refused.
--
-- Protobuf models protocol/protobuf/codec/codec.cc, with protobuf and adler32 as an interface; its loop
-- runs on fuel, too. Frame is a frame as the receiver reads it and its round, Deliver bytes that are
-- whole frames, Fill the frame that fillEmptyBuff writes, Refused what the receiver makes of that one.
--
-- Net/TimerQueue models the timers of an event loop (mysdk/net/TimerQueue.cc, Timer.cc and the calls
-- of EventLoop.cc that schedule): Order the order of the list, Due a call of handleRead, whose
-- callbacks are a parameter and may schedule more, Alarm when the timer descriptor goes off.
-- Net/Connector models Connector.cc, with the rounds of the loop that it runs in; Phases describes it
-- by four phases, which Backoff shows it to go through. Net/TcpConnection models TcpConnection.cc, the
-- states of a connection and its buffers; what it does outside is a list of actions. Stream is about the
-- bytes that a call writes, Reach about any sequence of calls, Shut about shutdown with bytes that wait.
--
-- The battleground server. Game/Battleground models Battleground.cc, its states
-- (StateBattleground*.cc), the players and thrones of scene/Scene.cc and the handlers in BgPlayer.cc
-- that enter and leave (onEnterBattle, close). State has the states (setBattlegroundState, run, end,
-- settlement, closeBattleground), Players the rest; what a call sends is its list of effects. Counts,
-- Enter and Leave keep the team counts right, and Reach has the relation of what can happen. Phases is
-- about the order of the states, Reward and Silence about what is reported to the hotel. Game/Schedule
-- models BattlegroundMgr.cc, which runs every third battleground in turn; its loop has the number of
-- battlegrounds as fuel. Game/Body models BgUnit.cc and how players, buildings and flowers are hurt;
-- Game/Buf the buffs (skill/Buf.cc and its subclasses) and the handlers in skill/BufHandler.cc that put
-- them on, over the tables in Game/Base: the loop of Buf::run has a fuel of one tick for each
-- millisecond since the last one and one more, which Buf/Burn shows to be enough. Game/Player models
-- the kills, titles and rewards of BgPlayer.cc, Game/Package the items that a player carries
-- (package/Package.cc), Game/UseItem the use of items (onUseItem, skill/ItemHandler.cc), Game/DropItem
-- the items that lie on a battleground (scene/DropItemMgr.cc), Game/Flower the flowers that players
-- plant (scene/FlowerMgr.cc, BgFlower.cc), Game/JoinTimes the counts of joins in a day
-- (JoinTimesMgr.cc), Game/Note the packets for the clients (protocol/GameProtocol.h).
--
-- Game/Skill models the use of skills (skill/SkillHandler.cc, the rest of skill/BufHandler.cc, Util.h):
-- Objects has the scene and the pointers into it, where a pointer is the place of an object, Strike
-- the blow with its splash and its buffs, Refuse and Cooldown when it is refused, Dates the times of
-- the last uses that Cooldown rests on, Order the handler onUseSkill with getTargetUnit, Flowers what
-- a flower does by itself (BgFlower.cc), and the modules named Spare what happens to friends;
-- Strike/View is what a team sees of a scene.
--
-- Game/Server models LoongBgSrv.cc, the connections of the battleground server, its statistics and its
-- limits, and Game/Server/Message what it does with a packet and on its timers, the login among them.
-- The digest of a login and what the players do are parameters: the interface Players stands for
-- BgPlayer.cc with all that hangs on it. Steps has the relation of what can happen; Walk follows the
-- paths through onKaBuMessage and onTimer once for every property that its parts keep (the interface
-- Keeps), which Held fills for the counts of players and Idle for the order of the clients. Once and Lost
-- are about the map of players, Idle about the timer that closes idle connections.
--
-- The boss server, game/bosssrv. Boss/HurtMgr models BossHurtMgr.cc, the hurt of each player and the board
-- of the ten highest: std::sort is a parameter, of which Order says what is documented. Board and
-- TopTen show the board to be the ten highest. Boss/UrlEncode models the encoding of a text for a URL,
-- Room the room that it takes. Boss/Server models the rest of BossSrv.cc, its messages, its timers and
-- the rewards; what it reports to the web server is an effect, and the comparison of floats that decides
-- who deserves a reward a parameter. Award and Once are about the rewards, Hits about the hit points of
-- the boss.
--
-- Numbers. An int16 or int32 is an integer, with the wrap of casts and of arithmetic written out where
-- the code has it; uint8 counts and size_t are natural numbers with their remainder. A time in
-- milliseconds is a natural number: the clock does not go before 1970, and a difference of times that
-- would be negative is 0, which no test of the code tells from a negative one. The values of random and
-- the readings of the clock are arguments.
--
-- Not modelled: logging; sockets, pollers and threads; TcpServer and TcpClient with their maps of
-- connections; of BgPlayer.cc the handlers of moves, chat and lists of players; the signals, the hotel
-- and the start of the battleground server; the database server; the protobuf dispatcher; generated code,
-- bindings of Lua and MySQL, and copies of other projects.
pub mod Prelude
pub mod Net
pub mod Kabu
pub mod Protobuf
pub mod Game
pub mod Boss
