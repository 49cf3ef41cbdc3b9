-- ===== src/Lib.antt =====
-- The tree backends of the World Wide Anthropomorphic Tree Protocol: a tree of labelled nodes with
-- versions, its change by transactions, and the backends that are built over one another.
--
-- Parts and files. The C++ sources are named from common/backend_cpp, but for SharedSpan.
--   Base, Text, OrderedMap: helpers that stand for the language and its library. A Text is the list
--     of the bytes of a std::string; an OrderedMap is a std::map with strings as keys, as a list
--     whose keys grow. Result is a value or an exception.
--   TreeNode: interface/tree_node.h and .cpp. TreeNodeVersion, TreeNode, NewNodeVersion,
--     SubTransaction and Transaction are records and lists of the same names. TreeNode/Version has
--     the operators of TreeNodeVersion, TreeNode/Labels prefixLabels, shortenLabels and their forms
--     on transactions.
--   TreeNode/Equality and TreeNode/Property: operator== and the properties of TreeNode. The data of
--     the properties is the list of its bytes, as it is in memory of a host that keeps the least
--     byte first; a value of a type of fixed size is given by its bytes.
--   SharedSpan: shared_span::restrict and compress of common/transport/include/shared_chunk.h, on
--     the bytes of each chunk.
--   MemoryTree: memory/src/memory_tree.cpp. A method that changes the tree returns the new one.
--   LabelRule: checkLabelRuleOverlap and partialLabelRuleMatch of memory/src/simple_backend.cpp.
--   Stream: the parts of std::istream and std::ostream that the program uses, as functions on the
--     text that is left to read or that follows.
--   TreeNode/TextForm: operator<< with the contents hidden and operator>> of nodes and versions, of
--     interface/tree_node.h and .cpp.
--   TreeMessage: interface/http3_tree_message_helpers.cpp, as functions on lists of chunks: labels
--     and long strings in TreeMessage, nodes in TreeMessage/Nodes, changes and notifications in
--     TreeMessage/Changes, transactions in TreeMessage/Transactions, vectors in TreeMessage/Vectors.
--     A chunk is its header's members and its payload, at most 1194 bytes. The encoders of nodes have
--     a parameter data_chunks, which says how the data of the properties lies in chunks.
--   TreeMessage/Codec: what an encoder, its decoder and its can_decode function agree on.
--   Http3TreeMessage: class HTTP3TreeMessage of interface/http3_tree_message.h and .cpp, with its
--     state and the passing of chunks in Http3TreeMessage, the codes of the signals in
--     Http3TreeMessage/Signals, and the encoders and decoders of the methods in
--     Http3TreeMessage/Requests and Http3TreeMessage/Responses. They send with the encoders of
--     TreeMessage, what a Backend's methods take and give.
--   Http3ClientBackend: class Http3ClientBackend of http3_client/http3_client_backend.h and .cpp, over
--     any local backend. Http3ClientBackend/State has its members, the queue of its requests, which
--     are Http3TreeMessages, and the waits for responses; Http3ClientBackend/Journal the notifications
--     and the response of a journal; Http3ClientBackend/Process processHTTP3Response and the handlers
--     of the streams, whose state is the client and a message. A method that waits is given what the
--     other threads do to the client until it goes on (Threads).
--   Backend: interface/backend.h, as a record of methods over an unknown state. A method that
--     changes the state is an Exec: what was written before an exception stays written.
--   SimpleBackend: memory/src/simple_backend.cpp, a MemoryTree and its listeners. The calls that
--     listeners have had are a part of the state.
--   TransactionalBackend: memory/src/transactional_backend.cpp, layers over any backend, with the
--     loops over the stack of layers in TransactionalBackend/Stack.
--   RedirectedBackend: structure/redirected_backend.cpp, any backend below a prefix.
--   CompositeBackend: structure/composite_backend.cpp, backends mounted at rules of a root.
--   Tests: concrete trees, runs of the methods, and the theorems at concrete arguments.
--
-- Each class has one function for each of its methods, with the method's name in snake case, and
-- one value of type Backend that puts them together (simple_backend, transactional_backend,
-- redirected_backend, composite_backend). The last three take the backend below as a parameter.
--
-- Numbers. The version numbers are uint16_t, and are natural numbers here: operator++ takes its
-- remainder after the promotion to int, and the differences of operator< fit in int32_t. The index of
-- CompositeBackend::getRelevantBackend is an int, and a natural number here: the rules of mounts are
-- taken to be shorter than 2 ^ 31 bytes.
--
-- Undefined behaviour. A result `trap` is no exception, but stands where the code divides by a
-- max_version_sequence of 0, takes the front of an empty list or steps past the end of one, reads
-- past the data of a property, uses a variable that a failed read of a stream left as it was, or
-- runs for ever.
--
-- Rounds. The loop of MemoryTree::deleteNode runs on a number of rounds, the nodes of the tree with
-- their children and the labels to delete; with as many, nothing is left to delete.
--
-- The loops of encode_long_string and can_decode_long_string run on as many rounds as the string has
-- bytes, of which each takes one or more. The string_offset of the second is an int32_t, and its
-- modulus is written out. The loops of operator>> run on one round more than the text that is left has
-- bytes; a round that ends takes at least one. A stream that ends before the closing bracket, where
-- the code runs for ever, is a `trap`. The digits of a number are printed in as many rounds as the
-- number.
--
-- Not modelled: a callback that calls its backend, the sharing of one state by several backends, a
-- read out of the range of a string (a byte that is no slash stands there), the YAML forms and the
-- form of a node with the contents of its data, copies of a node that share the chunks of their data,
-- the mutexes of a message and of a client, the times of a client's journal requests and the streams
-- of its updater, the threadsafe and file backends, the server, and the transport.
pub mod Base
pub mod Text
pub mod Stream
pub mod OrderedMap
pub mod TreeNode
pub mod MemoryTree
pub mod LabelRule
pub mod Backend
pub mod SimpleBackend
pub mod TransactionalBackend
pub mod RedirectedBackend
pub mod CompositeBackend
pub mod SharedSpan
pub mod TreeMessage
pub mod Http3TreeMessage
pub mod Http3ClientBackend
pub mod Tests
