-- ===== src/Lib.antt =====
-- marinatb: the core of the testbed manager, as definitions that run and theorems about them.
--
-- A user describes an experiment as a blueprint (core/blueprint.cxx): computers with interfaces,
-- networks, and links between them. A site is described as a topology (core/topo.cxx): hosts,
-- switches, and links. The embedding (core/embed.cxx) places the computers of a blueprint on the
-- hosts of a topology, host by host, and notes each network at the switches that more than one of
-- its computers reaches. The materialization service (core/materialization-service.cxx) embeds a
-- blueprint, gives its interfaces addresses, and asks the hosts to start their computers. The
-- host control (core/host-control.cxx) runs on each host, and starts and stops the machines there by shell
-- commands. The blueprint service (core/blueprint-service.cxx) keeps blueprints in the database
-- (core/db.cxx). The API (api/api.cxx) and the access service (core/access.cxx) relay requests.
--
-- Files and code:
--   Common      Boolean tests, words of 64 bits, lists, exceptions as a result type, and maps. A map
--               (std::unordered_map) is an association list; its order stands for the order of
--               iteration, which the code does not fix.
--   Platform    What the code uses of others, as records of parameters: double arithmetic, the pipes
--               library (map, collect, sort, reduce), the sets and the sort of the standard library,
--               inet_pton with the byte order, fmt, libpq, JSON values and the printing of uuids. Each
--               law is documented behaviour of that code.
--   Units       Memory, Bandwidth and Latency (core/blueprint.hxx, core/blueprint.cxx).
--   Ip          IpV4Address (core/blueprint.cxx).
--   Ident       Uuid and Endpoint (core/util.hxx, core/util.cxx). A uuid is a number; where the code
--               draws a random one, the operation takes it as an argument.
--   Blueprint   Interface, Network, Computer, HwSpec, Link and Blueprint (core/blueprint.cxx): Store
--               has the operations that change a blueprint, Graph the queries over its links,
--               Compare the comparison and the copy. Removal, Connecting and Reachable are about the
--               operations; Reachable has the runs of operations on a new blueprint as a relation.
--   Topo        Switch, Host and TestbedTopology (core/topo.cxx): Testbed has the operations,
--               Connected the queries over the links. Removing and Reach are about them.
--   Embed       Load, LoadVector, HostEmbedding (Load), EChart (Chart), pack (Pack), the loops of
--               embed (Fill, Algorithm) and unembed (Unembed), all of core/embed.cxx. Packing and Filling
--               are about one host and one switch, Fuel about the end of the loop, Order about the list of
--               computers, Safety and Overload about loads, Keyed and KeptKeys about
--               the maps of a chart.
--   Json        json and fromJson of these classes. Object has extract and the building of an object; Values,
--               Parts and Wholes the classes, from units to topologies. What a constructor draws from
--               the random device is a parameter by its place in the call (Supply). ValueLaws, ListLaws,
--               PartLaws and WholeLaws are about reading what was written, Severed and Unplaceable about
--               topologies that were read, InRange, Built and Made about the blueprints that the operations make.
--   HostControl The service on each host (core/host-control.cxx). Command has what it runs, Shell its state and
--               the log of what it ran, with what a command replies as a parameter; Boot, Guest, Launch,
--               Terminate and Service are its functions, Rules reasons about the log. Released, Unlaunched
--               and Freed are about plopLinuxConfig, construct and destruct.
--   Accounts    The routes of core/accounts.cxx.
--   Database    class DB (core/db.cxx): Statement has the texts that are sent, Store the functions. PostgreSQL
--               is a parameter that takes a text and a state.
--   BlueprintService  The handlers of core/blueprint-service.cxx and their routes; Laws is about them.
--   MaterializationService  The handlers of core/materialization-service.cxx, construct in a child with the routes;
--               Info has the JSON of core/materialization.cxx. Unsent is about destruct, Same, Silent and
--               Serve about the requests to hosts in all that the service does. What a request to a host
--               does to the hosts is a parameter.
--   Relay       The routes of api/api.cxx and core/access.cxx, and where a request comes by way of both.
--   Http        Replies, jsonIn (core/util.cxx) and the choice of a handler (common/net/http_server.cxx).
--               Message has the bodies (common/net/proto.cxx), Request the callbacks of a request
--               (common/net/http_request.cxx), Server the handlers of a server and the callbacks of a request to
--               it (common/net/http_server.cxx), which Served is about.
--   Netlink     mac_2_ifname (core/netlink.cxx) and core/mac2ifname.cxx, over the messages that the kernel sends.
--   Client      The client (core/client.cxx): Machine has what it runs on and how a call of it ends, Requests
--               and Compile its commands, Main its main. Usage is about command lines that are refused,
--               Remote about the client, the API, the access service and the blueprint service together,
--               Saved about a blueprint that is compiled and saved.
--   Materialize Ids is LinearIdCacheMap (core/util.hxx), which core/host-control.cxx numbers bridges by,
--               IdLaws is about its ids, Numbering about what it promises and Race about two threads in create.
--               Addresses and Construct are the loops of construct and destruct
--               (core/materialization-service.cxx) with the state that they keep
--               (core/materialization.hxx, core/materialization.cxx). DB::newVxlanVni is a parameter.
--               A request names a computer here; its JSON is in MaterializationService.
--   Sample      Concrete parameters and sites that the tests and the witnesses run on.
--
-- An exception is a value of Exception; undefined behaviour that the code can reach is the value
-- `undefined` there. Numbers of type size_t are natural numbers that wrap at 2 ^ 64 where they are
-- added or multiplied. The objects of a blueprint are shared pointers in the code and values here:
-- each operation returns the new value. A call on a handle that shares its object with a blueprint is
-- an edit of the entry with its id (Blueprint.Edits).
--
-- Fuel: the loop over the hosts of a switch (Embed.Fill.fill) gets one round more than there are
-- computers left, as each round but the last places one; the loop of removeComputer
-- (Blueprint.Store.erase_found) gets one round more than the map has entries, as each erases one.
--
-- Not modelled: printing of whole values, the transport of HTTP and the netlink socket: they are input and
-- output around this core.
pub mod Common
pub mod Platform
pub mod Units
pub mod Ip
pub mod Ident
pub mod Blueprint
pub mod Topo
pub mod Embed
pub mod Sample
pub mod Materialize
pub mod Json
pub mod HostControl
pub mod Http
pub mod Database
pub mod BlueprintService
pub mod MaterializationService
pub mod Relay
pub mod Client
pub mod Netlink
pub mod Accounts
