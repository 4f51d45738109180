-- ===== src/Lib.antt =====
-- The repository's own programs and containers: the timer queues, the dictionary and its keys, the
-- Base64 coder, the tool that wraps a capture in VXLAN, the TTL of a DNS response, and the key of a
-- connection. The dictionary takes its hashes from the
-- keys and its values are opaque; the other parts do not call one another.
--
-- The parts, and the files that model them:
--   queue/PQ_Element.h, queue/PriorityQueue.h, queue/PriorityQueue.cc - Queue: a binary heap of
--     pointers to elements that know their bin. Queue/Memory has the array and the store of elements,
--     Queue/Order the invariant; Queue/Up, Queue/Down, Queue/Add and Queue/Remove are about BubbleUp,
--     BubbleDown, Add and the two kinds of Remove.
--   queue/PriorityQueueUnrolled.h, queue/PriorityQueueUnrolled.cc - Queue/Unrolled: the same heap
--     with BubbleDown as a loop.
--   queue/PriorityQueueVect.h, queue/PriorityQueueVect.cc - Queue/Vect: a sorted vector.
--   dict/OpenDict.h, dict/OpenDict.cc - Dict: clustered hashing with open addressing. Dict/Math is
--     the bucket math, Dict/Cluster the cluster math, Dict/Relocate the moves of entries and SizeUp,
--     Dict/Remap the incremental remap, Dict/Lookup the lookups, Dict/Update Insert, Remove and Clear
--     with the order of insertion and the robust cookies, Dict/Iterate the iteration. Dict/Contents
--     has the map that a dictionary stands for: a record of what a well-formed dictionary is, the value
--     that its table holds for a key, and Lookup, Insert and Remove against that map; below Dict/Remap
--     is the same for a dictionary that grows, between SizeUp and the end of the remap. Dict/Checks has
--     AssertValid and DistanceStats.
--   dict/List.h - EntryList: an array list that grows by doubling.
--   dict/Hash.h, dict/Hash.cc - Hash: the keys, and who owns their bytes.
--   sha256-ssh-key-hashing.cc - Base64: b64_ntop and b64_pton.
--   pcap2vxlan/pcap2vxlan.h, pcap2vxlan/pcap2vxlan.c - Vxlan: the checksum, the headers and the loop of
--     main; Vxlan/Conf has parse_element and parse_conf. Vxlan/Network lays the outer headers out in
--     network byte order, and Vxlan/Frames and Vxlan/Round hold the loop against that.
--   c-ares/cares_ttl.c - Cares: get_ttl, and Cares/Outcome what it does with any response.
--   ordered_map.cpp - ConnKey: ConnIDKey and its order.
-- Functions have the names of the source in snake case (BubbleUp is bubble_up), fields those of the
-- members. Prelude has what the parts share, Run how a call ends: with a value, a fault (a read or
-- write outside an array, a failed assertion or an abort), or without fuel.
--
-- State is passed explicitly. The queues write the bins of their elements through pointers, so the
-- elements are a store, a function from addresses. A time is its rank among the doubles that are no
-- NaN, with -HUGE_VAL as 0. An int that is -1 or not negative is an Option. Counters keep their
-- wrap-around where the type is unsigned; an int is taken not to overflow. No allocation fails.
--
-- Base64 is on strings before their final NUL, VXLAN on a little-endian host and on files as lists of
-- bytes. The memory of the keys of Hash is a list of blocks, one of them the member key_u of each key.
-- Loops that are not structural run on fuel: BubbleUp on the bin plus one, as the bin halves;
-- BubbleDown on the size plus one, as the bin grows below the size; the halving search on the length
-- plus one. InsertAndRelocate and RemoveAndRelocate have the capacity plus two and plus one, as
-- positions grow up to the capacity; the loop of NextEntry over visited entries has one round more
-- than there are such entries. LookupIndex may call itself once, in the assertion behind a
-- remap: that call finds the entry in its new bucket, and so does not remap.
--
-- Not modelled: the hash functions (parameters of Hash; a hash is an argument of the dictionary), what
-- the dictionary does with the memory of its keys, printing, MemoryAllocation and the dumps, sort,
-- the iterators and pop_back of dict/List.h, the calls of OpenSSL beside Base64, pcap2vxlan/pcap2gre.c,
-- which is no C source any more after a machine translation, and the rest of the repository: demos
-- around system libraries, copies of other libraries, patches and scripts. Parameters of the model are
-- isspace, what sscanf, atoi, inet_pton and ether_aton return, the packets that libpcap reads, and
-- what lies on the stack behind a pointer that pcap2vxlan reads past, what ares_expand_name and
-- DNS_RR_TTL give, and the `bucket` that an entry keeps in debug builds. A growing dictionary has one
-- remap pending.
pub mod Prelude
pub mod Run
pub mod Queue
pub mod Dict
pub mod EntryList
pub mod Hash
pub mod Base64
pub mod Vxlan
pub mod Cares
pub mod ConnKey
