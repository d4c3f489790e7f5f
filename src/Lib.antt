-- ===== src/Lib.antt =====
-- bup keeps backups in git repositories: files are split at content-dependent places into blobs and
-- trees, packs of objects are found through index files, and records cross pipes and files in a
-- variable length encoding. This library models those parts and states what they do.
--
-- Parts and files:
--
-- Vint (lib/bup/vint.py, and the encoders of lib/bup/_helpers.c behind it). A port is the list of
-- the bytes that are left to read, or that were written. Vint has the encoders and decoders of
-- integers (encode_vuint, read_vuint, encode_vint, read_vint; the C vuint_encode and vint_encode
-- with their buffer of eight bytes), Vint.Bvec byte vectors, Vint.Pack the records (send, recv,
-- pack, unpack and the C limited_vint_pack). Vint.Groups, Vint.Unsigned, Vint.Signed and
-- Vint.ReadSigned are about the integers, Vint.Pack.Unpack about the records.
--
-- Git (lib/bup/git.py). Git.Names has mangle_name and demangle_name; Git.PackIdx has PackIdx and
-- PackIdxV2, with the binary search behind the fanout table, and Git.PackIdx.Search is about it. A
-- mapped file is the list of its bytes. Git.PackIdxList is the list of these indexes and of midxes,
-- which is searched from its front, where Git.PackIdxList.Says is about one of them and
-- Git.PackIdxList.Found about the list. Git.Trees has tree_encode, tree_entries and
-- find_tree_entry; Git.Trees.Order is about the sort, Git.Trees.Find about the search,
-- Git.Trees.Parts about one entry among the bytes, Git.Trees.RoundTrip about a tree.
--
-- Git.PackObj has _encode_packobj and _decode_packobj, with zlib as parameters, and Git.PackWriter
-- the LocalPackStore, the PackWriter and the entries of PackIdxV2Writer: an operation that may
-- raise returns what it raises with the state after it. The disk is its packs by their names, and
-- the callback _on_pack_finish is a parameter that changes the disk.
--
-- Gc (lib/bup/gc.py): find_live_objects over the items of the walk, and sweep with
-- remove_stale_packs as the callback of its pack writer. Gc.Keep has what a collection relies on
-- and what it is to keep, Gc.Disk the packs on the disk, Gc.Copy one object that is written,
-- Gc.Sweep the scan of an index, Gc.Loop the rewriting of a pack, Gc.Safety the whole sweep,
-- Gc.Mark the mark.
--
-- Tree (lib/bup/tree.py): the directories of a save as git trees. Tree.Names abbreviates names by a
-- trie, Tree.Bupm has _dir_metadata and _write_tree, Tree.Split _write_split_tree, Tree.Stack the
-- Stack. A .bupm is written by Hashsplit, names are mangled by Git.Names; what the repository
-- returns for what it writes and the splitter of names are parameters. Tree.Split.Rounds is about
-- the recursion, Tree.Split.Items about the items of its levels, Tree.Bupm.Entries,
-- Tree.Split.Content, Tree.Split.Reach and Tree.Stack.Written about what is found in the trees, and
-- Tree.Names.Total, Tree.Bupm.Total and Tree.Split.Total about what is returned.
--
-- Midx (lib/bup/midx.py, with firstword and extract_bits of lib/bup/_helpers.c): PackMidx with its
-- interpolating search, and open_midx. Midx.Words reads an oid as a number; Midx.Search is about
-- the search. Both kinds of index answer with the ObjectLocation of lib/bup/helpers.py.
--
-- Hashsplit (lib/bup/hashsplit.py): the building of a blob or a tree from the blobs of a splitter.
-- The splitter is its list of blobs with levels, and the repository's makeblob and maketree are
-- parameters. Hashsplit.Rounds is about the loop of _squish, Hashsplit.Order about the names of the
-- chunks in git's order, over Base.Hex.Order, Hashsplit.Content about what is read back.
--
-- HlinkDb (lib/bup/hlinkdb.py): the database of hard links, with what its exit stack has to do as
-- two fields. HlinkDb.Paths and HlinkDb.Deletion are about its two dictionaries, HlinkDb.Save about
-- the file.
--
-- PruneOlder (lib/bup/cmd/prune_older.py, with partition of lib/bup/helpers.py): classify_saves,
-- which says what saves of a branch are kept. The fields of localtime are parameters, and times are
-- counted from the epoch on. PruneOlder.Kept has the decision that it comes to, PruneOlder.Order
-- the order of the saves.
--
-- Shquote (lib/bup/shquote.py): splitting a line into words, quoting words and completing them.
-- Shquote.RoundTrip and Shquote.Completion are about these.
--
-- Xstat (lib/bup/xstat.py): times in nanoseconds and the strings for modes; Xstat.Times is about
-- times.
--
-- Metadata (lib/bup/metadata.py): encode and read of the tagged records over Vint.Pack, with times
-- in nanoseconds by Xstat. Metadata.Fields has the loaders of the records, Metadata.Records the
-- loop of read, Metadata.Same __eq__ and same_file, over the tests of Metadata.Equality.
-- Metadata.Stored and Metadata.Extended are about the content of each record, Metadata.RoundTrip
-- about all of them. An attribute that may be None is an Option.
--
-- Index (lib/bup/index.py): the entries of the index in the packed form of Base.Struct.
-- Index.Writer has Level, _golevel and the Writer, whose levels are listed from the current one to
-- the root; Index.Reader the iterations of an entry and of the Reader over the bytes of a file;
-- Index.MetaStore the store of Metadata records; Index.State the flags and times of an entry;
-- Index.Paths pathsplit and reduce_paths, Index.Add the entries of Writer.add, Index.Merge
-- merge_iter of lib/bup/helpers.py. Index.Listing is about the entries of one level in the file,
-- Index.Stored about levels that are left, Index.Replay and Index.Run about _golevel against what
-- is to be listed, Index.Rooted about the two lowest levels, Index.Flush about the end of a file,
-- Index.Room about what the levels still have to write, Index.Total and Index.Additions about a run
-- of the Writer that raises nothing, Index.RoundTrip about a whole index.
--
-- Rm (lib/bup/rm.py): filter_branch and rm_saves, which take commits out of a branch; Rm.History is
-- about the history that stays.
--
-- Base has what these share: tests on numbers, lists, integers, bytes and their order,
-- dictionaries, Base.Struct Python's struct.pack and struct.unpack, Base.Packs the values that they
-- take, and Base.Error the exceptions.
-- A result `undefined` is behaviour that C leaves open.
--
-- Loops that end by a test on data run on fuel. The C encoders get 64 rounds, one for each bit of a
-- `long long`; the Python encoder as many as the number; the searches the width of their range, of
-- which each round takes one at least; _squish the levels it is to pass, the stacks it has, and
-- two; tree_entries and find_tree_entry the bytes of the tree, of which a round passes 22; a number
-- in octal or decimal the number and one; the size of a packed object the size and one;
-- _write_split_tree its items and one, since every level has fewer of them; the reading of metadata
-- its bytes and one, of which a record passes two; the recursion over the index the bytes of the
-- file and one, since what a directory has was written before it.
--
-- Not modelled: reading and mapping files, log lines and closing, the rolling checksum of the
-- splitter, PackIdxV1, the format of the index that is written, failing writes of an index, the
-- bloom filters, the system calls behind metadata and the index: they are I/O or C code. Left out
-- as well are the virtual file system, the protocol of client and server, rewriting, getting,
-- saving and restoring, and the other commands: they compose these parts over a repository, a
-- connection or the file system, whose answers would all be parameters. The parsing of commits and
-- of URLs is left out, too, and the option parser is a copy of another project's.
pub mod Base
pub mod Vint
pub mod Git
pub mod Midx
pub mod Hashsplit
pub mod HlinkDb
pub mod PruneOlder
pub mod Gc
pub mod Tree
pub mod Shquote
pub mod Xstat
pub mod Rm
pub mod Metadata
pub mod Index
