-- ===== src/Lib.antt =====
-- A model of fsdyn, a C library of containers and text and date utilities, with the theorems that
-- make its components correct. Paths are those of the repository; C names are kept.
--
-- Parts and files:
-- + src/date.c, `epoch_to_utc`: Date and its children. Date.Table is YDAY_INFO, Date.Calendar the
--   Gregorian calendar that the results are compared with.
-- + src/avltree.c: AvlTree and its children. `Tree` is `avl_elem_t` with its children, `AvlTree` is
--   `avl_tree_t`; AvlTree.Put inserts, AvlTree.Search looks up, AvlTree.Detach removes,
--   AvlTree.Walk goes to the neighbours, AvlTree.Copy copies, AvlTree.Order has the sorted lists
--   that the operations refine, AvlTree.Runs is about several calls after one another. The
--   comparator is a parameter with the laws of a total preorder.
-- + src/base64.c: Base64 and its children. Base64.Text has the text that the encoder is compared
--   with, Base64.Encode and Base64.Simple the theorems on the encoder, Base64.Decoder the decoder
--   with the round trips, Base64.Decoder.Safe the decoder on any source.
-- + src/charstr.c: Charstr and its children. Charstr.CaseTable, Charstr.ClassTable and
--   Charstr.UrlTable are its tables; Charstr.Number reads numbers, Charstr.Utf8 codes UTF-8
--   (`Encodes` and `IsAccepted` are what the decoder takes, `IsUtf8` of Charstr.Utf8.Verdict is
--   UTF-8), Charstr.Url codes URLs, Charstr.Split splits and joins, and Charstr.Atoms splits at
--   white space.
--   A C string is the list of its characters before the NUL, and a pointer into it the rest of the
--   list; Charstr.Utf8 says where the NUL is written out.
-- + src/priority_queue.c: PriorityQueue and its children. PriorityQueue.Model has the operations,
--   PriorityQueue.Holes the order of the heap around the slot that waits for its element. The
--   comparator is that of AvlTree.Comparator, and the callback `reloc` changes a state.
-- + Prelude: shared names, lists over native numbers, integers with C's division, table checks,
--   writes to buffers.
--
-- How C is read: an unsigned number is a native ℕ and a signed one an integer ℤ; `Option` with
-- `none` stands for undefined behaviour (a null pointer read, an `int` that does not fit, an index
-- out of range), so a theorem that gives `some` says that the code has none. Allocation succeeds,
-- as `fsalloc` never returns NULL. The recursions are structural but for the loop of
-- `avl_tree_detach`, whose fuel is the tree's size: each exchange moves the element down, to
-- a place with fewer elements below, so there are at most as many exchanges as elements; and the
-- loops over UTF-8 and over words, whose fuel is the text's length: each round takes a byte or more;
-- and `raise`, `lower` and the doubling of the storage in a queue, whose fuel is the slot, the number
-- of elements and the number of slots that are needed.
--
-- Not modelled: the parent links of tree elements (a place in the tree stands for them), freeing
-- memory, charstr_split_str and the printing functions of src/charstr.c, which call the C library's
-- strstr and vsnprintf, and the components that are not named above.
pub mod Prelude
pub mod Date
pub mod AvlTree
pub mod Base64
pub mod Charstr
pub mod PriorityQueue
