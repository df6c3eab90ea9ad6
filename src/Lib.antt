-- ===== src/Lib.antt =====
-- Verification of rmw_connextdds, the ROS 2 middleware layer over RTI Connext DDS.
--
-- The program turns the calls of the rmw interface into calls of DDS. A context owns the DDS
-- participant and counts the nodes on it; publishers, subscribers, clients and services are DDS
-- writers and readers with mangled names; the graph keeps track of all of them and announces
-- changes to the other participants. All paths below are from the repository's root.
--
-- Names: rmw_connextdds_common/src/common/demangle.cpp (Names/Demangle) and the functions that make
--   the names of topics and types in common/rmw_impl.cpp (Names/Mangle). A text is the list of its
--   bytes (Names/Text); an exception and an access out of bounds are results of their own. The
--   replacement of text that rcpputils provides is a parameter.
-- Endpoint: class RMW_Connext_Subscriber with its loans and take_next (Endpoint/Loan), of
--   common/rmw_impl.cpp and include/rmw_connextdds/rmw_impl.hpp, over the reads of
--   ndds/dds_api_ndds.cpp; global identifiers and sequence numbers (Endpoint/Identity); samples,
--   their filter and conversion (Endpoint/Sample); requests and replies of clients and services
--   (Endpoint/Exchange). The DDS reader and writer, the type support and rcutils are records of
--   parameters (Platform, Writer), and what DDS documents of them is named (Documented). The
--   unbounded loop of take_next is recursion on fuel, and the length of the queue of samples gives
--   enough. The data condition's trigger is part of the reader's state.
-- Qos: the QoS helpers of common/rmw_impl.cpp. Qos/Policies has the types, Qos/Convert the
--   conversions for Connext Professional, Qos/Profiles and Qos/Services the lists of profile names.
--   Integers of the source keep their wrap-around; DDS_Long stands as its bit pattern. The
--   exception of a failed allocation, in the lists of names, is left out.
-- Graph: common/rmw_graph.cpp, the updates for local nodes and endpoints (Graph/Endpoints,
--   Graph/Nodes) over the cache of rmw_dds_common, which is a parameter (Graph/Cache) whose
--   behaviour on a change that is taken back is named (Graph/Undo). Each operation is one step, as
--   the mutex of the source makes it.
-- Discovery: common/rmw_discovery.cpp (Discovery/Thread), the start and the end of the graph
--   (Discovery/Setup, also of ndds/dds_api_ndds.cpp), and of common/rmw_graph.cpp and
--   ndds/dds_api_ndds.cpp what is done with the samples of other participants
--   (Discovery/Samples); that the cache keeps writers and readers in maps is named
--   (Discovery/Presence). What each wait and each take gives is explicit, in the order of time; a
--   take that fails ends the list.
-- Context: class rmw_context_impl_t of common/rmw_context.cpp: initialize_node, finalize_node,
--   clean_up, next_client_id and assert_topic. How each call of DDS ends is a parameter.
-- WaitSet: class RMW_Connext_WaitSet, the classes of conditions and RMW_Connext_Event, of
--   common/rmw_impl.cpp and include/rmw_connextdds/rmw_impl.hpp, and common/rmw_event.cpp.
--   WaitSet/Protocol has the threads that move a wait set between its states, each section under
--   `mutex_internal` as a step, and each call of `notify_all`, which wakes the threads that are asleep
--   on `state_cond`, as another; a thread may also wake up by itself. Events, Handles, Conditions,
--   Attach and Wait have the functions as one thread runs them, over stores of objects by address.
--   What the other threads do while it waits on `state_cond`, and what arrives at the readers during
--   the wait of DDS, are parameters,
--   as are the functions of DDS (Dds). A pointer to a subscriber, client, service or event is its
--   address, and a null pointer in an array that wait has written is `none`.
-- Resource: the creation and the end of publishers, subscribers, clients and services
--   (Resource/Publisher, Subscriber, Service), of common/rmw_impl.cpp and ndds/dds_api_ndds.cpp, and
--   the registration of their types (Resource/Types), of ndds/rmw_type_support_ndds.cpp. The state
--   counts what is held of DDS and of the heap, and has the registered types by name; how each call
--   of DDS, of the graph and of the allocators ends is a parameter. The call that ends a writer or
--   reader has one outcome, also where a creation that fails undoes itself.
-- Ret holds the result codes, Prelude the shared names and lemmas, Tests the theorems at concrete
--   inputs.
--
-- Not modelled: the creation and deletion of wait sets and conditions, serialization and the DDS
-- type plugins (code that the build generates, and Fast CDR), the parsing of peers, security and
-- the shutdown of the context, the functions of the rmw interface that only check arguments and
-- call the parts above, the backend for Connext Micro, and the copy of rmw_dds_common.
pub mod Prelude
pub mod Names
pub mod Ret
pub mod Endpoint
pub mod Qos
pub mod Graph
pub mod Discovery
pub mod Context
pub mod Tests
pub mod WaitSet
pub mod Resource
