-- ===== src/Lib.antt =====
-- CatDB: the parts of the database engine that the files of this library model.
--
-- The engine answers a statement by a tree of operators (sql/), each of which takes rows from its
-- children by `get_next_row` and hands rows on. Rows and their columns are those of common/row.h, the
-- hash operators share the table of common/hash_table.h, and at the leaves a table scan takes rows from
-- the table space of storage/, which keeps some pages in memory and all of them in a file. The server
-- (server/) sends rows in packets of the MySQL protocol.
--
-- Files, and the code that each models:
--   Error                 common/error.h: the codes, and the result of a call with an out-parameter
--   Object                common/object.h: what the rest calls of an object, as an interface
--   RowDesc, Row          common/row.h, common/row.cpp; Row/Join and Row/Column treat joins and lookups
--   Expr                  sql/expression.h as the operators see it, sql/filter.cpp
--   HashTable             common/hash_table.h, common/hash_table.cpp; HashTable/Probe,
--                         HashTable/Dedup and HashTable/Stored treat what a probe finds
--   Relation              lists of rows up to a relation: the specification of the set operators
--   Operator              sql/phy_operator.h: the operator as an interface, and what it means that one
--                         delivers a list of rows; its children are the loops that operators share
--   Distinct              sql/hash_distinct.cpp
--   SetOps                sql/hash_set.cpp: union, intersect, except and union all, one file each
--   PlanFilter, Limit     sql/plan_filter.cpp, sql/limit.cpp
--   NestedLoop            sql/nested_loop_join.cpp; its children treat the inner, semi and anti joins
--   Storage/Memory        the bytes behind a pointer
--   Storage/Address       storage/page.cpp: page offsets and row ids
--   Storage/Format        storage/page.cpp: a record in the bytes of a page
--   Storage/Page          storage/page.h, storage/page.cpp: the operations of a page; its children
--                         treat the list of rows that a page stands for, operation by operation
--   Storage/IoService     storage/IoService.cpp: the file of a table, page by page
--   Storage/PageMap       std::map, as the table space uses it
--   Storage/TableSpace    storage/table_space.h, storage/table_space.cpp, and the destructor of a page;
--                         its children treat the table that the pages in memory and in the file make up
--   TableScan             sql/table_scan.cpp
--   HashJoin              sql/hash_join.cpp: HashJoin; HashJoin/AntiJoin is HashNullAwareAntiJoin, and
--                         HashTable/Stored treats the rows that the table of both holds
--   Sort                  sql/sort.cpp: Sort; Sort/Order treats its order, Sort/Rows what it delivers, and
--                         Sort/Perms what rows keep when their order changes
--   Sort/TopN             sql/sort.cpp: TopNSort; its children treat the rows that it keeps and drops
--   Query                 sql/query.cpp: the columns of a SELECT
--   Aggregate             sql/expression.cpp: AggregateExpression; Aggregate/Result treats its value
--   ScalarGroup           sql/scalar_group.cpp; ScalarGroup/Rows treats the row that it delivers
--   Packet                server/packet/util.h, server/packet/util.cpp, server/global.h
--   Packet/Ok             server/packet/ok_packet.h, server/packet/ok_packet.cpp
--   Prelude               shared names, and lists and tests on native numbers
--   Tests                 the theorems at concrete inputs
--
-- State is passed explicitly: an operation takes the state of its component and returns it changed,
-- with the code that the source returns. Function names are those of the source.
--
-- Fuel. A loop that takes rows from a child until one is kept runs on fuel, since the child decides how
-- often it answers; the theorems ask for more fuel than the child has rows, with which the loop comes to
-- its end. The loops over row infos, columns and buckets are recursions on what is left of them.
--
-- Bounds. Row ids and page offsets are 32-bit numbers with the wrap-around written out, the offsets in
-- a record are 16-bit, and bit 31 of a row id is the deletion mark. A page has 16384 bytes. A table space
-- is treated below 2^21 pages, from which on the first row id of a page would have bit 31 set.
--
-- Interfaces stand for what is not modelled: ObjectClass, NumberClass and Stored (the kinds of objects,
-- their arithmetic, and how they are serialized), StdHash (std::hash), std::sort, StdHeap
-- (std::make_heap and its like), `reset_expr` (an expression given the outer row of a subquery), and
-- `leaves` (the row that a failing call of its left child leaves with a nested loop join). The Tests
-- instantiate them.
--
-- Not modelled: the arithmetic and the logic of objects (decimals are a copy of the MySQL library), the
-- evaluation of expressions other than aggregates, the columns that a hash join takes out of its
-- condition, grouping by columns, the operators that change tables, the statements and their planning,
-- the packets but the OK packet, the server's sockets and threads. Logging has no effect on any result
-- and is left out everywhere.
pub mod Prelude
pub mod Error
pub mod Object
pub mod RowDesc
pub mod Row
pub mod Expr
pub mod Relation
pub mod HashTable
pub mod Operator
pub mod Distinct
pub mod SetOps
pub mod PlanFilter
pub mod Limit
pub mod Storage
pub mod NestedLoop
pub mod Packet
pub mod TableScan
pub mod HashJoin
pub mod Aggregate
pub mod ScalarGroup
pub mod Query
pub mod Sort
mod Tests
