-- ===== src/Lib.antt =====
-- Dorylus trains graph neural networks with graph servers, which hold the partitions of the graph
-- and gather and scatter along its edges, short-lived lambda workers, which do the dense
-- computation on chunks of vertices, and weight servers, which keep the weights and apply the
-- updates. A chunk is the unit of work: an interval of a server's vertices, with its layer,
-- direction and epoch.
--
-- This library models the parts below as functions on explicit states. `unsigned` is a natural
-- number with its wrap-around written out (Prelude/Words), `std::map` is a list of entries sorted
-- by an order (Prelude/Map), a fault, such as a read through a pointer to nothing, is `none`, and
-- the arithmetic of `FeatType` is a parameter of which no law is assumed (Weights/Float).
--
--  * Chunk: `Chunk` and its `operator<` (src/common/utils.hpp). Chunk.Order is about this order.
--  * Weights.Heap, Weights.Tidy: the arrays of `new FeatType[n]` as cells of a heap, `Matrix` as a
--    pointer to one, and families of matrices that own their arrays.
--  * Matrices: the operators of `Matrix` (src/common/matrix.cpp); `cblas_sgemm` is a parameter of
--    the product, and a file is the sequence of the values written.
--  * Weights.Adam: `AdamOptimizer` (src/weight-server/AdamOptimizer.cpp).
--  * Weights.Versions: the members `currVer`, `ver2Mat` and `chunk2Ver` of `WeightTensor` with
--    their reference counts, over any type of matrix (src/weight-server/weighttensor.cpp).
--  * Weights.Tensor: `WeightTensor` with its buffers. Defs has its methods, Trace the sequences of
--    calls that its mutexes admit, each call one step; the other children have the proofs.
--  * Server.Report: the accuracy reports of a weight server and its decision to stop early
--    (src/weight-server/weightserver.cpp). A call returns the messages that it sends.
--  * Engine.Layers: how the engine cuts the vertices into chunks and moves a chunk through layers
--    and epochs (src/graph-server/engine/utils.cpp).
--  * Engine.Schedule: the scheduler of the chunks (src/graph-server/engine/ops/pipeline.cpp). One
--    turn of its loop is a step; what the other nodes answer is an argument.
--  * Lambda: the lambdas in flight, their relaunch and their results
--    (src/graph-server/commmanager/lambda_comm.cpp). Time stamps are arguments.
--  * NodeManager: the messages between the graph servers
--    (src/graph-server/nodemanager/nodemanager.cpp). The messages that reach the socket are a list
--    in the order of their arrival; a call that would block at the end of the list waits.
--  * Graph: the graph of a server (src/graph-server/graph): its partition file (Graph.Partition),
--    processEdge and the loop over the edges (Graph.Edges), the normalisation (Graph.Normalise),
--    preprocess as a whole (Graph.Preprocess), the compressed adjacency matrices (Graph.Compress),
--    the local ids and degrees of the ghosts (Graph.Ghosts), and the file that the preprocessing
--    writes (Graph.Write) and the server reads (Graph.Read). The power -0.5 and the product of
--    weights are parameters. A file is the sequence of the values written; counts of 64 bits are
--    of things in memory and do not wrap, and the counts of 32 bits of the edges of one vertex,
--    and of the vertices and one, are taken below 2 ^ 32.
--  * Engine.Pipeline: the queues of the engine and the threads that move chunks between them
--    (src/graph-server/engine/ops/pipeline.cpp, src/graph-server/commmanager/resource_comm.cpp).
--    It uses the scheduler of Engine.Schedule and the messages of NodeManager; a turn of one
--    thread is a step.
--  * Engine.Scatter: the ghost messages between the engines, from scatterGCN and verticesPushOut
--    (Engine.Scatter.Defs) to ghostReceiverGCN (Engine.Scatter.Receive), in
--    src/graph-server/engine/ops/gcn_ops.cpp and src/graph-server/engine/utils.cpp. A message is
--    its header and the ids and rows that it carries; the sockets hand messages on in order. The
--    tensor that is scattered and the width of its rows are arguments. It uses the chunks of
--    Chunk.
--  * Engine.Aggregate: the aggregation along the edges on the CPU: srcVFeats2eFeats and
--    dstVFeats2eFeats (src/graph-server/engine/utils.cpp), whose pointers are places in two
--    tensors, aggregateGCN (src/graph-server/engine/ops/gcn_ops.cpp) and aggregateGAT
--    (src/graph-server/engine/ops/gat_ops.cpp), over a parameter arithmetic. It uses the matrices
--    of Graph.Compress.
--  * Server.Updates: the exchange of updates between the lambdas and the weight servers
--    (src/weight-server/serverworker.cpp, and applyUpdate and receiver of
--    src/weight-server/weightserver.cpp). It uses the tensors of Weights.Tensor. Defs has the
--    handlers and the calls that they are made of; Threads has the threads of a server that handle
--    the updates of one tensor, where each call is a step, and any sequence of steps may happen;
--    Handlers relates the two. The copy that applyUpdate publishes holds no mutex and is one step
--    there, so an update that is cleared while it is copied is not in the model. ghostUpdate has
--    no mutex either; only the receiver calls it, and no other thread writes what it writes before
--    the updates of a round are complete.
--
-- Loops over arrays are recursive on the number of elements and need no fuel, but for the loop
-- over the batches of a bucket (Engine.Scatter.Defs), whose fuel is the number of the ids in it:
-- that is enough, since every batch takes at least one. The printing, the file and socket calls,
-- and the text that `tryApplyUpdate` returns are not modelled, except that the text is empty or
-- not.
--
-- Not modelled: the dense computation of the lambdas and of the CPU and GPU builds (src/funcs,
-- src/graph-server/GPU-Computation, src/graph-server/commmanager/CPU_comm.cpp), which is calls of
-- numeric libraries on tensors; the prediction and the edge gradients of the GAT
-- (src/graph-server/engine/ops/gat_ops.cpp); the start-up of servers and sockets; the tools that
-- convert the inputs (src/inputs) and the scripts. Of the weight server, the initial weights and
-- their distribution, and the bytes of its headers, are left out.
pub mod Chunk
pub mod Engine
pub mod Graph
pub mod Lambda
pub mod Matrices
pub mod NodeManager
pub mod Prelude
pub mod Server
pub mod Weights
