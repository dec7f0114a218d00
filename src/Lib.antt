-- ===== src/Lib.antt =====
-- A model of ActorModelServer, an actor server on Windows I/O completion ports with a test client,
-- and what the model's theorems show. Paths are from the repository's root, below ActorModelServer/.
--
-- The parts and how they interact. A network session (ActorModelServer/Session) and any other actor
-- is an actor (ActorModelServer/Actor.h) with a mailbox. I/O threads turn the bytes of a session
-- into packets and those into messages in its mailbox (ServerCore.cpp, with the handlers that an
-- actor registers); logic threads consume the mailboxes; release threads take sessions out of the
-- maps. Mediators (MediatorBase) are actors that run transactions over participants. The client
-- (TestClient) makes packets of its byte stream and actors of its packets.
--
--   Actor            ActorModelServer/Actor.h, Actor.cpp: the mailbox. SendMessage is `send_message`,
--                    ProcessMessage `process_message`; a message is a function of a world that
--                    returns the calls it makes on the actor.
--   Actor.Packets    RegisterPacketHandler, CreateMessageFromPacket, FindFunctionObject.
--   Deserializer     the namespace Deserializer of Actor.h, by its functions' names.
--   NonNetworkActor  ActorModelServer/NonNetworkActor, ActorCreator.h, PacketManager.
--   Mediator         ActorModelServer/MediatorBase: one function per method; virtual calls are events.
--                    Ballots is an abstract protocol of votes that it refines.
--   Session          ActorModelServer/Session: I/O count and send path. A gap of `do_send` is what
--                    other threads enqueue between two looks at the queue.
--   PacketBuffer     BuildPacketBuffer of Session.cpp and SendPacket of TestClient/Client.cpp: packet
--                    objects are bytes in a memory, which is a function of addresses.
--   ServerCore       ActorModelServer/ServerCore: RecvPath is OnIoCompleted and what it calls, Registry
--                    the maps, the user count, the release queues and a round of the logic thread,
--                    Threads a round of each thread, Loops their loops and StopServer, Timers
--                    the logic threads over mailboxes (with SessionTimer.cpp; its Serving is one
--                    session under receives and rounds), Startup StartServer.
--   TestSupport      ActorModelServer/TestSupport.
--   Ticker           ActorModelServer/Ticker and TimerEvent.
--   Logger           Logger/Logger: the queue and the worker.
--   Contents         ContentsServer/MediatorImpl and SectorManager; Player is PacketHandler.cpp and
--                    PacketHandlerRegister.cpp.
--   SimpleClient     TestClient/SimpleClient: its receive path, its send path in Sending, its start
--                    and stop in Lifecycle.
--   Client           TestClient/ActorManager, ActorCreator, ClientLogicHandler, ClientLogicProcess;
--                    Logic is the logic thread of Client.cpp beside the receive thread.
--   NetLib           the ring buffer, the lock-free queue and the packet format, which come from a
--                    library that is not in the repository: records of operations, with the laws
--                    that the code relies on, and lists as an instance.
--   Base             shared names, lists, maps as association lists, counters.
--
-- State is passed explicitly; several threads are a sequence of operations in any order, each whole
-- where the code holds a lock for it. Socket results, clocks and waits are arguments. A map's
-- iteration order is that of its list. 64-bit and 16-bit values wrap around where the code adds.
-- Loops are by recursion on the data. The packet loops have fuel: the bytes in the ring and one
-- round more, which is enough as every round takes a header at least. The loop of `do_send` has
-- three rounds of fuel and uses two. A loop that runs out of fuel gives `none`, and the theorems
-- show that it does not.
--
-- Not modelled: the reading of option files (their values are arguments), the text of log lines and
-- the opening of the log file, the size of a packet buffer, encryption, reference counts, the classes
-- that have no code of their own (NPCBase, Sector), and the two main functions, which poll the
-- keyboard.
pub mod Base
pub mod Mediator
pub mod NonNetworkActor
pub mod Deserializer
pub mod Actor
pub mod NetLib
pub mod PacketBuffer
pub mod SimpleClient
pub mod Session
pub mod ServerCore
pub mod Ticker
pub mod TestSupport
pub mod Logger
pub mod Contents
pub mod Client
